-- ===== src/Libsingbox/Exports.antt =====
-- The exported functions keep one service at a time and free the mutex.
use hey.Prelude.{ℕ, List, true, none, some, ◌≡◌, refl}
use hey.Codec.Text.{Text}
use hey.Libsingbox
use hey.Libsingbox.{
  Packages, Core, Go, G, BoxEvent, Request, StartRequest, set_up, made, started, closed, returns,
  panics, waits, give, then_go, ask_box, set_service, fresh, with_lock,
}
use hey.Libsingbox.Rules.{Runs, Runs-give, Runs-then, Runs-ask_box, Runs-with_lock}
use hey.Libsingbox.Branches.{Runs-cgo_start_sing_box, Runs-stop_locked}
use hey.Libsingbox.Service.{Serves, closes, Holds, Live, Ready, Ready-with_lock, start_locked-Live}

module _ (go : Packages) {W : Type 0} where
  module _ (tun : (t : List BoxEvent) (svc : ℕ) → go.opens_tun t svc ≡ true → W) where
    pub cgo_start_sing_box-Ready :
        {F : Core → Type 0} (s : Text)
        → Runs W Ready (Libsingbox.cgo_start_sing_box go s) (λ _. Ready) F
    cgo_start_sing_box-Ready s =
        Runs-cgo_start_sing_box go {E = Ready} s (λ err c e r. r) (λ req e. starts req) λ err c r. r
      where
        starts :
            (req : StartRequest)
            → Runs W Ready (with_lock (Libsingbox.start_locked go req)) (λ _. Ready) Ready
        starts req =
            Runs-with_lock (start_locked-Live go tun req)
              (λ c r. ((λ e. let free = r.0 in cc), r.1)) (λ a d l. (refl, l)) (λ d l. (refl, l))

  module _ {X : Type 0}
      (crash : (t : List BoxEvent) (svc : ℕ) (r : Text)
        → go.close t svc ≡ Libsingbox.panicked r
        → X) where
    closed_service :
        (svc : ℕ) → Runs W (Holds (some svc)) (Libsingbox.close_service go svc) (λ _. Live) (λ _. X)
    unfolding Libsingbox.close_service
    closed_service svc =
        Runs-then {Q = λ _ c. Serves none c.asked}
          (Runs-ask_box _ _ (λ c x q h. closes svc h.1) (λ c e q h. closes svc h.1)
            (λ c r q h. crash c.asked svc r q))
          λ ended. Runs-then {Q = λ _. Live} clears λ _. Runs-give _ λ c h. h
      where
        clears : Runs W (λ c. Serves none c.asked) (set_service none) (λ _. Live) (λ _. X)
        clears = unfold set_service in record { run = λ c h. h }

    pub cgo_stop_sing_box-Ready :
        Runs W Ready (Libsingbox.cgo_stop_sing_box go) (λ _. Ready) (λ _. X)
    unfolding Libsingbox.cgo_stop_sing_box
    cgo_stop_sing_box-Ready =
        Ready-with_lock
          (Runs-stop_locked go {P' = λ svc. Holds (some svc)} (λ c e live. live)
            (λ c svc e live. (e, rw (← e) live)) closed_service)
          (λ c x. x)
