-- ===== src/Health/Helpers.antt =====
-- The helpers around system calls and results keep the invariant.
use hey.Bridge.Keeps.{Allowed}
use hey.Prelude.{ℕ, ◌≡◌, refl, ◌∷◌, Bool, true, false, arith, ℤ, pos, negsuc}
use hey.Codec.Text.{Text}
use hey.Bridge.State.{Env, Event, Level, Bridge, Trace}
use hey.Bridge.State
use hey.Bridge.Monad.{emit, ask, modify}
use hey.Bridge.Calls
use hey.Bridge.Keeps.{Keeps, Keeps->>=, Keeps-option, keeps_rules, Keeps-pure, Keeps-gets}
use hey.Health.Invariant.{Known, Healthy}

-- An event that sets no variable and hands over no string.
abbrev neutral : Event → Bool
neutral (State.env_set name value) = false
neutral (State.returned a s) = false
neutral (State.freed a s) = false
neutral _ = true

after_event :
    {k : Known} (e : Event) (s : Bridge)
    → neutral e ≡ true
    → Healthy k s
    → Healthy k (record s { trace = e ∷ s.trace })
after_event e s n h = ground arith

module _ {C : Allowed} {k : Known} where
  pub Keeps-emit : (e : Event) → neutral e ≡ true → Keeps C (Healthy k) (emit e)
  unfolding emit
  Keeps-emit e n = record { keeps = λ s h. after_event e s n h }

  pub Keeps-ask {ℓ} :
      {A : Type ℓ} (f : Trace → A) (e : A → Event)
      → ((a : A) → neutral (e a) ≡ true)
      → Keeps C (Healthy k) (ask f e)
  unfolding ask
  Keeps-ask f e n = record { keeps = λ s h. after_event (e (f s.trace)) s (n (f s.trace)) h }

  pub Keeps-log : (level : Level) (message : Text) → Keeps C (Healthy k) (Calls.log level message)
  unfolding Calls.log
  Keeps-log level message = Keeps-emit _ refl

  set_message :
      (message : Text) → Keeps C (Healthy k) (modify (λ s. record s { last_message = message }))
  unfolding modify
  set_message message = record { keeps = λ s h. ground arith }

  pub Keeps-create_result :
      (ok : Bool) (message : Text) → Keeps C (Healthy k) (Calls.create_result ok message)
  unfolding Calls.create_result
  Keeps-create_result ok message = search (keeps_rules, set_message, Keeps-log)

  pub Keeps-create_result_quiet :
      (ok : Bool) (message : Text) → Keeps C (Healthy k) (Calls.create_result_quiet ok message)
  unfolding Calls.create_result_quiet
  Keeps-create_result_quiet ok message = Keeps-pure _

  module _ (env : Env) where
    pub Keeps-errno_failure {ℓ} :
        {A : Type ℓ} (prefix : Text) → Keeps C (Healthy k) (Calls.errno_failure env {A = A} prefix)
    unfolding Calls.errno_failure
    Keeps-errno_failure prefix = Keeps-gets _

    pub Keeps-write_text_file :
        (path content : Text) → Keeps C (Healthy k) (Calls.write_text_file env path content)
    unfolding Calls.write_text_file Calls.close_file
    Keeps-write_text_file path content =
        search (keeps_rules, Keeps-ask, Keeps-errno_failure) depth 20

    pub Keeps-make_fd_inheritable :
        (fd : ℤ) → Keeps C (Healthy k) (Calls.make_fd_inheritable env fd)
    unfolding Calls.make_fd_inheritable Calls.set_inheritable
    Keeps-make_fd_inheritable fd = Keeps->>= (Keeps-ask _ _ (λ _. refl)) (λ flags. by_sign flags)
      where
        by_sign : (flags : ℤ) → Keeps C (Healthy k) (Calls.set_inheritable env fd flags)
        by_sign (negsuc n) = Keeps-errno_failure _
        by_sign (pos n) = search (keeps_rules, Keeps-ask, Keeps-errno_failure) depth 20

    pub Keeps-dlopen : (path : Text) → Keeps C (Healthy k) (Calls.dlopen env path)
    unfolding Calls.dlopen
    Keeps-dlopen path = Keeps-ask _ _ (λ _. refl)

    pub Keeps-dlsym : (h : ℕ) (name : Text) → Keeps C (Healthy k) (Calls.dlsym env h name)
    unfolding Calls.dlsym
    Keeps-dlsym h name = Keeps-ask _ _ (λ _. refl)

    pub Keeps-dlerror : Keeps C (Healthy k) (Calls.dlerror env)
    unfolding Calls.dlerror
    Keeps-dlerror = Keeps-ask _ _ (λ _. refl)

    pub Keeps-open_library : (name : Text) → Keeps C (Healthy k) (Calls.open_library env name)
    unfolding Calls.open_library
    Keeps-open_library name =
        Keeps->>= (Keeps-dlopen _) (λ o. Keeps-option o (Keeps-dlopen _) (λ h. Keeps-pure _))
