-- ===== src/Valid/Fds.antt =====
-- What the engines are started on: an fd that was made inheritable before, and arguments in range.
use hey.Prelude.{
  ℕ, ◌≡◌, ◌∷◌, [], Bool, true, false, not, ◌&&◌, ◌%◌, ◌/◌, ◌*◌, ◌==◌, ℤ, pos, negsuc, ltb_ℤ,
  is_empty, Bool-cases, inl, inr, arith, if◌then◌else◌,
}
use hey.Codec.Text.{Text}
use hey.Bridge.State
use hey.Bridge.State.{Env, Event, Trace, Bridge}
use hey.Bridge.Monad.{M, Try, success, failure, pure, gets, ask, ◌>>=◌}
use hey.Bridge.Calls
use hey.Bridge.Keeps.{Triple, Triple->>=, Triple-of_Keeps, Triple-weaken, Keeps-of_Triple, anything}
use hey.Frame.{valid}
use hey.Frame.Steps
use hey.Valid.Rules.{Past, Closed, Admits, frame}

-- The flag that closes the fd on exec was cleared, and the call that cleared it did not fail.
abbrev pub granted : Env → ℤ → Trace → Bool
granted env fd [] = false
granted env fd (State.fd_flags_set other flags ∷ t) =
    let before = granted env fd t in
    if not (ltb_ℤ fd other)
      && (not (ltb_ℤ other fd)
          && (flags % 2 == 0 && not (ltb_ℤ (env.set_fd_flags t other flags) (pos 0))))
    then true
    else before
granted env fd (_ ∷ t) = granted env fd t

-- What may happen after a trace: an engine is started on an fd that is granted and not negative, gVisor
-- with a port and an mtu in range, and hev with a configuration that is not empty.
abbrev pub proper : Env → Trace → Event → Bool
proper env t (State.called f (State.start_arguments fd host port mtu)) =
    granted env fd t
    && (not (ltb_ℤ fd (pos 0))
        && (ltb_ℤ (pos 0) port
            && (not (ltb_ℤ (pos 65535) port)
                && (not (ltb_ℤ mtu (pos 576)) && not (ltb_ℤ (pos 1500) mtu)))))
proper env t (State.thread_started f (State.config_argument config fd)) =
    granted env fd t && (not (is_empty config) && not (ltb_ℤ fd (pos 0)))
proper env t (State.thread_detached f) = true
proper env t e = valid e

-- Everything that happened was `proper` where it happened.
abbrev pub Admissible : Env → Trace → Type 0
Admissible env [] = Unit
Admissible env (e ∷ t) = (proper env t e ≡ true) × Admissible env t

abbrev pub Holding : Env → ℤ → Trace → Type 0
Holding env fd t = Admissible env t × (granted env fd t ≡ true)

-- As predicates of the state.
abbrev pub Kept : Env → ℕ → Trace → Type 0
Kept env engine t = Admissible env t

abbrev pub Held : Env → ℤ → ℕ → Trace → Type 0
Held env fd engine t = Holding env fd t

module _ (env : Env) where
  proper-valid : (t : Trace) (e : Event) → valid e ≡ true → proper env t e ≡ true
  proper-valid t (State.called f (State.start_arguments fd host port mtu)) v = cc
  proper-valid t (State.called f State.no_arguments) v = v
  proper-valid t (State.called f (State.string_argument s)) v = v
  proper-valid t (State.called f (State.int_argument n)) v = v
  proper-valid t (State.called f (State.config_argument config fd)) v = v
  proper-valid t (State.thread_started f args) v = cc
  proper-valid t (State.logged level s) v = v
  proper-valid t (State.dlopened s h) v = v
  proper-valid t State.dlerror_read v = v
  proper-valid t (State.dlsym_read h s) v = v
  proper-valid t (State.env_set s x) v = v
  proper-valid t (State.file_opened s) v = v
  proper-valid t (State.file_written s x) v = v
  proper-valid t (State.file_closed s b) v = v
  proper-valid t (State.fd_flags_read fd) v = v
  proper-valid t (State.fd_flags_set fd flags) v = v
  proper-valid t (State.returned a s) v = v
  proper-valid t (State.freed a s) v = v
  proper-valid t (State.thread_detached f) v = cc
  proper-valid t State.thread_joined v = v

  granted-cons :
      (fd : ℤ) (e : Event) (t : Trace) → granted env fd t ≡ true → granted env fd (e ∷ t) ≡ true
  granted-cons fd (State.fd_flags_set other flags) t h = ground arith
  granted-cons fd _ t h = h

  pub Admissible-IsClosed : Closed (Kept env)
  Admissible-IsClosed = record { of_event = λ e g t v h. (proper-valid t e v, h) }

  module _ (fd : ℤ) where
    pub Holding-cons :
        (e : Event) (t : Trace) → proper env t e ≡ true → Holding env fd t → Holding env fd (e ∷ t)
    Holding-cons e t v (h, g) = ((v, h), granted-cons fd e t g)

    pub Holding-IsClosed : Closed (Held env fd)
    Holding-IsClosed = record { of_event = λ e g t v h. Holding-cons e t (proper-valid t e v) h }

    -- The outcome of `MakeFdInheritable`.
    abbrev Made : Try (Unit {0}) → Bridge → Type 0
    Made (failure message) s = Past (Kept env) s
    Made (success x) s = Past (Held env fd) s

    set_inheritable-Made :
        (flags : ℤ)
        → ltb_ℤ fd (pos 0) ≡ false
        → Triple anything (Past (Kept env)) (Calls.set_inheritable env fd flags) Made
    unfolding Calls.set_inheritable Calls.errno_failure ask gets pure ◌>>=◌
    set_inheritable-Made (negsuc n) h = record { run = λ s p. p }
    set_inheritable-Made (pos flags) h = record {
      run = λ s p. elim (Bool-cases (ltb_ℤ (env.set_fd_flags s.trace fd (flags / 2 * 2)) (pos 0))) [
        | inl e ↦ rw e (record { past = (cleared, p.past) })
        | inr e ↦ rw e (record { past = ((cleared, p.past), grants s.trace e) })
      ];
    }
      where
        cleared : valid (State.fd_flags_set fd (flags / 2 * 2)) ≡ true
        cleared = ground arith

        itself : ltb_ℤ fd fd ≡ false
        itself = ground arith

        grants :
            (t : Trace)
            → ltb_ℤ (env.set_fd_flags t fd (flags / 2 * 2)) (pos 0) ≡ false
            → granted env fd (State.fd_flags_set fd (flags / 2 * 2) ∷ t) ≡ true
        grants t e = rw (e, itself) (ground arith)

    make_fd_inheritable-Made :
        ltb_ℤ fd (pos 0) ≡ false
        → Triple anything (Past (Kept env)) (Calls.make_fd_inheritable env fd) Made
    unfolding Calls.make_fd_inheritable
    make_fd_inheritable-Made h =
        Triple->>=
          (Triple-of_Keeps (Steps.Keeps-ask (frame Admissible-IsClosed) _ _ (λ _. ground arith)))
          λ flags. set_inheritable-Made flags h

    -- What follows `MakeFdInheritable` may rely on the fd being granted.
    pub Admits-made {ℓ} :
        {A : Type ℓ} {n : Text → M A} {f : Unit {0} → M A}
        → ltb_ℤ fd (pos 0) ≡ false
        → ((e : Text) → Admits (Kept env) (n e))
        → ((x : Unit {0}) → Admits (Held env fd) (f x))
        → Admits
            (Kept env)
            (Calls.make_fd_inheritable env fd >>= λ i. elim i [ failure e ↦ n e | success x ↦ f x ])
    Admits-made {A} {n} {f} h k l = Keeps-of_Triple (Triple->>= (make_fd_inheritable-Made h) branch)
      where
        branch :
            (i : Try (Unit {0}))
            → Triple anything
                (Made i)
                (elim i [ failure e ↦ n e | success x ↦ f x ])
                (λ _. Past (Kept env))
        branch (failure e) = Triple-of_Keeps (k e)
        branch (success x) =
            Triple-weaken (Triple-of_Keeps (l x)) (λ a t p. record { past = p.past.0 })
