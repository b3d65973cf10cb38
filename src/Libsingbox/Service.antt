-- ===== src/Libsingbox/Service.antt =====
-- One service at a time: what libbox is asked for, over every sequence of requests.
use hey.Prelude.{ℕ, List, [], ◌∷◌, Bool, true, false, Option, none, some, ◌≡◌, refl, if◌then◌else◌}
use hey.Codec.Text.{Text}
use hey.Bridge.Monad.{Try, success, failure}
use hey.Libsingbox
use hey.Libsingbox.{
  Packages, Core, Go, G, BoxEvent, Request, StartRequest, set_up, made, started, closed, returns,
  panics, waits, give, then_go, ask_box, set_service, fresh, with_lock,
}
use hey.Libsingbox.Branches.{Runs-start_locked}
use hey.Libsingbox.Rules.{Ends, Runs, Runs-give, Runs-then, Runs-ask_box, Runs-with_lock}

-- libbox is set up, and makes and starts a service, only while none is in use; the one in use is the
-- last that was started with success, and only this one is closed, which is then in use no more.
pub data Serves : Option ℕ → List BoxEvent → Type 0 where
  nothing : Serves none []
  sets_up : {es : List BoxEvent} (base : Text) → Serves none es → Serves none (set_up base ∷ es)
  makes : {es : List BoxEvent} (config : Text) → Serves none es → Serves none (made config ∷ es)
  fails : {es : List BoxEvent} (svc : ℕ) → Serves none es → Serves none (started svc false ∷ es)
  starts :
      {es : List BoxEvent} (svc : ℕ) → Serves none es → Serves (some svc) (started svc true ∷ es)
  closes : {es : List BoxEvent} (svc : ℕ) → Serves (some svc) es → Serves none (closed svc ∷ es)

abbrev pub Live : Core → Type 0
Live c = Serves c.box_service c.asked

abbrev pub Holds : Option ℕ → Core → Type 0
Holds s c = (c.box_service ≡ s) × Serves s c.asked

-- Between two requests: the mutex is free.
abbrev pub Ready : Core → Type 0
Ready c = (c.locked ≡ false) × Live c

Live-of_Holds : (s : Option ℕ) (c : Core) → Holds s c → Live c
Live-of_Holds s c h = rw h.0 h.1

Live-locked : (c : Core) (b : Bool) → Live c → Live (record c { locked = b })
Live-locked c b h = h

-- A request takes the mutex when it is free, and frees it.
pub Ready-with_lock {ℓ} :
    {A : Type ℓ} {W : Type 0} {m : G A} {E : Core → Type 0}
    → Runs W Live m (λ _. Live) E
    → ((c : Core) → E c → E (record c { locked = false }))
    → Runs W Ready (with_lock m) (λ _. Ready) E
Ready-with_lock {E} h k =
    Runs-with_lock h (λ c r. ((λ e. let free = r.0 in cc), r.1)) (λ a d l. (refl, l)) k

-- A start that opens the TUN gives `W`.
module _ (go : Packages) {W : Type 0} where
  module _ (tun : (t : List BoxEvent) (svc : ℕ) → go.opens_tun t svc ≡ true → W) where
    opens :
        (b : Bool) (c : Core)
        → (b ≡ true → W)
        → Holds none c
        → Ends W
            (λ _. Holds none)
            Live
            (if b then then_go (Libsingbox.open_tun go) (λ r. give (some r)) c else returns none c)
    opens true c w h = (Runs-then opened λ r. Runs-give (some r) λ d i. i).run c h
      where
        opened : Runs W (Holds none) (Libsingbox.open_tun go) (λ _. Holds none) Live
        opened =
            unfold Libsingbox.open_tun in
            Runs-then
              (Runs-with_lock {E = λ _. ⊥} (record { run = λ d i. i }) (λ d i. ((λ e. w refl), i))
                (λ a d i. i) (λ d e. absurd e))
              λ fd. Runs-give _ λ d i. i
    opens false c w h = h

    start_service-Holds :
        (svc : ℕ)
        → Runs W
            (Holds none)
            (Libsingbox.start_service go svc)
            (λ r. elim r [
              | failure e ↦ Holds none
              | success x ↦ λ c. (c.box_service ≡ none) × Serves (some svc) c.asked
            ])
            Live
    unfolding Libsingbox.start_service
    start_service-Holds svc =
        Runs-then {Q = λ _. Holds none}
          (record { run = λ c h. opens (go.opens_tun c.asked svc) c (tun c.asked svc) h })
          λ r.
            Runs-ask_box _ _ (λ c x q h. (h.0, rw q (starts svc h.1)))
              (λ c e q h. (h.0, rw q (fails svc h.1))) (λ c e q h. rw (h.0, q) (fails svc h.1))

    sets :
        (svc : ℕ)
        → Runs W
            (λ c. (c.box_service ≡ none) × Serves (some svc) c.asked)
            (set_service (some svc))
            (λ _. Live)
            Live
    unfolding set_service
    sets svc = record { run = λ c h. h.1 }

    keep_service-Live :
        (svc : ℕ) (begun : Try (Unit {0}))
        → Runs W
            (elim begun [
              | failure e ↦ Holds none
              | success x ↦ λ c. (c.box_service ≡ none) × Serves (some svc) c.asked
            ])
            (Libsingbox.keep_service go svc begun)
            (λ _. Live)
            Live
    unfolding Libsingbox.keep_service
    keep_service-Live svc (failure err) = Runs-give _ (Live-of_Holds none)
    keep_service-Live svc (success x) = Runs-then (sets svc) λ _. Runs-give _ λ c h. h

    run_service-Live :
        (service : Try ℕ) → Runs W (Holds none) (Libsingbox.run_service go service) (λ _. Live) Live
    unfolding Libsingbox.run_service
    run_service-Live (failure err) = Runs-give _ (Live-of_Holds none)
    run_service-Live (success svc) = Runs-then (start_service-Holds svc) (keep_service-Live svc)

    make_service-Live :
        (req : StartRequest) (ready : Try (Unit {0}))
        → Runs W (Holds none) (Libsingbox.make_service go req ready) (λ _. Live) Live
    unfolding Libsingbox.make_service
    make_service-Live req (failure err) = Runs-give _ (Live-of_Holds none)
    make_service-Live req (success x) =
        Runs-then {Q = λ _. Holds none}
          (Runs-ask_box _ _ (λ c x q h. (h.0, makes req.config h.1))
            (λ c e q h. (h.0, makes req.config h.1)) (λ c e q h. rw h.0 (makes req.config h.1)))
          run_service-Live

    begin_service-Live :
        (req : StartRequest)
        → Runs W (Holds none) (Libsingbox.begin_service go req) (λ _. Live) Live
    unfolding Libsingbox.begin_service
    begin_service-Live req =
        Runs-then {Q = λ _. Holds none}
          (Runs-ask_box _ _ (λ c x q h. (h.0, sets_up req.base_path h.1))
            (λ c e q h. (h.0, sets_up req.base_path h.1))
            (λ c e q h. rw h.0 (sets_up req.base_path h.1)))
          (make_service-Live req)

    pub start_locked-Live :
        (req : StartRequest) → Runs W Live (Libsingbox.start_locked go req) (λ _. Live) Live
    start_locked-Live req =
        Runs-start_locked go {P' = Holds none} req (λ c e live. live)
          (λ c e live. (e, rw (← e) live)) (begin_service-Live req)
