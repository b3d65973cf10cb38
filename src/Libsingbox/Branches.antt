-- ===== src/Libsingbox/Branches.antt =====
-- Rules for the exported functions of the wrapper: their tests of the service in use, the decoding of a
-- request, and the deferred `recover()`.
use hey.Prelude.{ℕ, [], ◌++◌, true, Option, none, some, ◌≡◌, refl, if◌then◌else◌, is_some}
use hey.Codec.Text.{Text, text}
use hey.Bridge.Monad.{Try, success, failure}
use hey.Libsingbox
use hey.Libsingbox.{Packages, Core, Go, G, StartRequest, returns, panics, waits, give, with_lock}
use hey.Libsingbox.Rules.{Ends, Runs, Runs-give}

module _ (go : Packages) {W : Type 0} {P : Core → Type 0} {Q : Text → Core → Type 0}
    {E : Core → Type 0} where
  -- A start behind the lock: a service is in use, or none is.
  pub Runs-start_locked :
      {P' : Core → Type 0} (req : StartRequest)
      → ((c : Core)
          → is_some c.box_service ≡ true
          → P c
          → Q (Libsingbox.encode go (text "already running") none) c)
      → ((c : Core) → c.box_service ≡ none → P c → P' c)
      → Runs W P' (Libsingbox.begin_service go req) Q E
      → Runs W P (Libsingbox.start_locked go req) Q E
  unfolding Libsingbox.start_locked
  Runs-start_locked {P'} req used unused begins = record {
    run = λ c p. branch (Libsingbox.begin_service go req) begins c.box_service c refl p;
  }
    where
      branch :
          (m : G Text)
          → Runs W P' m Q E
          → (s : Option ℕ) (c : Core) → c.box_service ≡ s
          → P c
          → Ends W Q E (
              if is_some s
              then returns (Libsingbox.encode go (text "already running") none) c
              else m c)
      branch m h none c e p = h.run c (unused c e p)
      branch m h (some svc) c e p = used c (rw e refl) p

  -- A stop behind the lock.
  pub Runs-stop_locked :
      {P' : ℕ → Core → Type 0}
      → ((c : Core)
          → c.box_service ≡ none
          → P c
          → Q (Libsingbox.encode go (text "not running") none) c)
      → ((c : Core) (svc : ℕ) → c.box_service ≡ some svc → P c → P' svc c)
      → ((svc : ℕ) → Runs W (P' svc) (Libsingbox.close_service go svc) Q E)
      → Runs W P
          (λ c. elim c.box_service [
            | none ↦ returns (Libsingbox.encode go (text "not running") none) c
            | some svc ↦ Libsingbox.close_service go svc c
          ])
          Q
          E
  Runs-stop_locked unused used closes = record { run = λ c p. branch c.box_service c refl p }
    where
      branch :
          (s : Option ℕ) (c : Core)
          → c.box_service ≡ s
          → P c
          → Ends W Q E (elim s [
            | none ↦ returns (Libsingbox.encode go (text "not running") none) c
            | some svc ↦ Libsingbox.close_service go svc c
          ])
      branch none c e p = unused c e p
      branch (some svc) c e p = (closes svc).run c (used c svc e p)

  -- A start: of a request that does not decode, and of one that does, with the panics recovered.
  pub Runs-cgo_start_sing_box :
      {F : Core → Type 0} (s : Text)
      → ((err : Text) (c : Core)
          → Libsingbox.decode_request go s ≡ failure err
          → P c
          → Q (Libsingbox.encode go [] (some err)) c)
      → ((req : StartRequest)
          → Libsingbox.decode_request go s ≡ success req
          → Runs W P (with_lock (Libsingbox.start_locked go req)) Q E)
      → ((err : Text) (c : Core) → E c → Q (Libsingbox.encode go [] (some err)) c)
      → Runs W P (Libsingbox.cgo_start_sing_box go s) Q F
  unfolding Libsingbox.cgo_start_sing_box Libsingbox.recovered
  Runs-cgo_start_sing_box {F} s undecoded starts panicked = record {
    run = λ c p. recovers _ ((decoded (Libsingbox.decode_request go s) refl).run c p);
  }
    where
      decoded :
          (t : Try StartRequest)
          → Libsingbox.decode_request go s ≡ t
          → Runs W P
              (elim t [
                | failure err ↦ give (Libsingbox.encode go [] (some err))
                | success req ↦ with_lock (Libsingbox.start_locked go req)
              ])
              Q
              E
      decoded (failure err) e = Runs-give _ λ c p. undecoded err c e p
      decoded (success req) e = starts req e

      recovers :
          (o : Go Text)
          → Ends W Q E o
          → Ends W Q F (elim o [
            | returns a d ↦ returns a d
            | panics r d ↦
                returns
                  (Libsingbox.encode go [] (
                    some
                      (text "sing-box start panic: " ++ (r ++ (text " | " ++ go.stack d.asked)))))
                  d
            | waits d ↦ waits d
          ])
      recovers (returns a d) h = h
      recovers (panics r d) h = panicked _ d h
      recovers (waits d) h = h
