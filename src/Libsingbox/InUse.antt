-- ===== src/Libsingbox/InUse.antt =====
-- What the wrapper answers to a start and to a stop, against the service in use.
use hey.Prelude.{
  ℕ, List, [], Bool, true, false, not, Option, none, some, ◌≡◌, refl, is_some, if◌then◌else◌,
}
use hey.Codec.Text.{Text, text}
use hey.Bridge.Monad.{Try, success, failure}
use hey.Libsingbox
use hey.Libsingbox.{
  Packages, Core, Go, G, BoxEvent, Called, StartRequest, set_up, made, started, closed, returns,
  panics, waits, give, then_go, ask_box, set_service, with_lock,
}
use hey.Libsingbox.Branches.{Runs-start_locked, Runs-stop_locked, Runs-cgo_start_sing_box}
use hey.Libsingbox.Rules.{Ends, Runs, Runs-give, Runs-then, Runs-ask_box, Runs-with_lock}

module _ (go : Packages) where
  -- An answer that carries an error exactly where the flag is false.
  pub data Answers (ok : Bool) : Text → Type 0 where
    answers :
        (data_text : Text) (err : Option Text)
        → not (is_some err) ≡ ok
        → Answers ok (Libsingbox.encode go data_text err)

  abbrev pub Tells : Text → Core → Type 0
  Tells a c = Answers (is_some c.box_service) a

  abbrev Unused : Core → Type 0
  Unused c = c.box_service ≡ none

  failure-Tells : (err : Text) (c : Core) → Unused c → Tells (Libsingbox.encode go [] (some err)) c
  failure-Tells err c h = answers [] (some err) (rw h refl)

  set_service-some :
      (svc : ℕ) → Runs Unit Unused (set_service (some svc)) (λ _ c. c.box_service ≡ some svc) Unused
  unfolding set_service
  set_service-some svc = record { run = λ c h. refl }

  asks-Unused {ℓ} :
      {A : Type ℓ} (f : List BoxEvent → Called A) (e : Called A → BoxEvent)
      → Runs Unit Unused (ask_box f e) (λ _. Unused) Unused
  asks-Unused f e = Runs-ask_box f e (λ c x q h. h) (λ c x q h. h) (λ c r q h. h)

  start_service-Unused :
      (svc : ℕ) → Runs Unit Unused (Libsingbox.start_service go svc) (λ _. Unused) Unused
  unfolding Libsingbox.start_service
  start_service-Unused svc =
      Runs-then {Q = λ _. Unused} (record { run = λ c h. opens (go.opens_tun c.asked svc) c h })
        λ r. asks-Unused _ _
    where
      opens :
          (b : Bool) (c : Core)
          → Unused c
          → Ends Unit
              (λ _. Unused)
              Unused
              (if b
                then then_go (Libsingbox.open_tun go) (λ r. give (some r)) c
                else returns none c)
      opens false c h = h
      opens true c h = (Runs-then {Q = λ _. Unused} opened λ r. Runs-give (some r) λ d i. i).run c h
        where
          opened : Runs Unit Unused (Libsingbox.open_tun go) (λ _. Unused) Unused
          opened =
              unfold Libsingbox.open_tun in
              Runs-then
                (Runs-with_lock {E = λ _. ⊥} (record { run = λ d i. i }) (λ d i. ((λ e. tt), i))
                  (λ a d i. i) (λ d e. absurd e))
                λ fd. Runs-give _ λ d i. i

  keep_service-Tells :
      (svc : ℕ) (begun : Try (Unit {0}))
      → Runs Unit Unused (Libsingbox.keep_service go svc begun) Tells Unused
  unfolding Libsingbox.keep_service
  keep_service-Tells svc (failure err) = Runs-give _ (failure-Tells err)
  keep_service-Tells svc (success x) =
      Runs-then (set_service-some svc)
        λ _. Runs-give _ λ c h. answers (text "started") none (rw h refl)

  run_service-Tells :
      (service : Try ℕ) → Runs Unit Unused (Libsingbox.run_service go service) Tells Unused
  unfolding Libsingbox.run_service
  run_service-Tells (failure err) = Runs-give _ (failure-Tells err)
  run_service-Tells (success svc) = Runs-then (start_service-Unused svc) (keep_service-Tells svc)

  make_service-Tells :
      (req : StartRequest) (ready : Try (Unit {0}))
      → Runs Unit Unused (Libsingbox.make_service go req ready) Tells Unused
  unfolding Libsingbox.make_service
  make_service-Tells req (failure err) = Runs-give _ (failure-Tells err)
  make_service-Tells req (success x) = Runs-then (asks-Unused _ _) run_service-Tells

  begin_service-Tells :
      (req : StartRequest) → Runs Unit Unused (Libsingbox.begin_service go req) Tells Unused
  unfolding Libsingbox.begin_service
  begin_service-Tells req = Runs-then (asks-Unused _ _) (make_service-Tells req)

  start_locked-Tells :
      (req : StartRequest) → Runs Unit (λ c. Unit) (Libsingbox.start_locked go req) Tells Unused
  start_locked-Tells req =
      Runs-start_locked go {P' = Unused} req
        (λ c e h. answers (text "already running") none (rw e refl)) (λ c e h. e)
        (begin_service-Tells req)

  locked-Tells :
      (req : StartRequest)
      → Runs Unit (λ c. Unit) (with_lock (Libsingbox.start_locked go req)) Tells Unused
  locked-Tells req =
      Runs-with_lock (start_locked-Tells req) (λ c h. ((λ e. tt), tt)) (λ a d h. h) (λ d h. h)

  -- A start whose request decodes answers success exactly where a service is then in use.
  pub cgo_start_sing_box-Tells :
      (s : Text) (req : StartRequest)
      → Libsingbox.decode_request go s ≡ success req
      → Runs Unit (λ c. Unit) (Libsingbox.cgo_start_sing_box go s) Tells (λ c. ⊥)
  cgo_start_sing_box-Tells s req d =
      Runs-cgo_start_sing_box go {E = Unused} s (λ err c e h. cc) (λ req e. locked-Tells req)
        failure-Tells

  -- Does the close of the service in use succeed, if one is?
  abbrev pub closes : Option ℕ → List BoxEvent → Bool
  closes none es = true
  closes (some svc) es = Libsingbox.succeeded (go.close es svc)

  abbrev pub Stopped : Bool → Text → Core → Type 0
  Stopped ok a d = (d.box_service ≡ none) × Answers ok a

  abbrev ended_well : Try (Unit {0}) → Bool
  ended_well (success x) = true
  ended_well (failure err) = false

  asks_close :
      (svc : ℕ) (ok : Bool)
      → Runs Unit
          (λ c. Libsingbox.succeeded (go.close c.asked svc) ≡ ok)
          (ask_box (λ t. go.close t svc) (λ a. closed svc))
          (λ t d. ended_well t ≡ ok)
          (λ d. Unit)
  asks_close svc ok = Runs-ask_box _ _ (λ c x q h. rw q at h) (λ c e q h. rw q at h) (λ c r q h. tt)

  set_service-none :
      (ok : Bool) (t : Try (Unit {0}))
      → Runs Unit
          (λ c. ended_well t ≡ ok)
          (set_service none)
          (λ _ d. (d.box_service ≡ none) × (ended_well t ≡ ok))
          (λ d. Unit)
  unfolding set_service
  set_service-none ok t = record { run = λ c h. (refl, h) }

  close_service-Stopped :
      (svc : ℕ) (ok : Bool)
      → Runs Unit
          (λ c. Libsingbox.succeeded (go.close c.asked svc) ≡ ok)
          (Libsingbox.close_service go svc)
          (Stopped ok)
          (λ d. Unit)
  unfolding Libsingbox.close_service
  close_service-Stopped svc ok =
      Runs-then (asks_close svc ok)
        λ t. Runs-then (set_service-none ok t) λ _. Runs-give _ λ c h. (h.0, stopped t ok h.1)
    where
      stopped :
          (t : Try (Unit {0})) (ok : Bool)
          → ended_well t ≡ ok
          → Answers ok (
              Libsingbox.encode go
                (text "stopped")
                (elim t [ failure err ↦ some err | success x ↦ none ]))
      stopped (success x) ok e = answers (text "stopped") none e
      stopped (failure err) ok e = answers (text "stopped") (some err) e

  pub cgo_stop_sing_box-Stopped :
      (ok : Bool)
      → Runs Unit
          (λ c. closes c.box_service c.asked ≡ ok)
          (Libsingbox.cgo_stop_sing_box go)
          (Stopped ok)
          (λ d. Unit)
  unfolding Libsingbox.cgo_stop_sing_box
  cgo_stop_sing_box-Stopped ok =
      Runs-with_lock {E = λ d. Unit}
        (Runs-stop_locked go {P' = λ svc c. Libsingbox.succeeded (go.close c.asked svc) ≡ ok}
          (λ c e h. (e, answers (text "not running") none (none-closes c.box_service c.asked e h)))
          (λ c svc e h. some-closes c.box_service c.asked svc e h)
          λ svc. close_service-Stopped svc ok)
        (λ c h. ((λ e. tt), h)) (λ a d h. h) (λ d h. h)
    where
      none-closes : (s : Option ℕ) (es : List BoxEvent) → s ≡ none → closes s es ≡ ok → true ≡ ok
      none-closes s es e h = rw e at h

      some-closes :
          (s : Option ℕ) (es : List BoxEvent) (svc : ℕ)
          → s ≡ some svc
          → closes s es ≡ ok
          → Libsingbox.succeeded (go.close es svc) ≡ ok
      some-closes s es svc e h = rw e at h
