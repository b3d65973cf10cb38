-- ===== src/Valid/DataPlane.antt =====
-- What the handlers of the data plane need of a predicate that they are to keep, and the handlers.
use hey.Prelude.{
  Bool, ℕ, ◌≡◌, refl, List, ◌∷◌, false, not, ◌==◌, ℤ, pos, ltb_ℤ, ltb, length, is_empty, Option,
  none, some, if◌then◌else◌,
}
use hey.Codec.Text.{Text}
use hey.Bridge.State
use hey.Bridge.State.{Env, Trace, Bridge, tun_engine_none, tun_engine_hev}
use hey.Bridge.Monad.{M, success, failure, emit, modify, ◌>>=◌, ◌>>◌}
use hey.Bridge.Calls
use hey.Bridge.Calls.{NapiResult}
use hey.Bridge.Keeps.{
  Keeps->>=, Keeps->>, Keeps-if, Keeps-unless, Keeps-try, Keeps-gets, anything, Triple, Triple->>=,
  Triple-weaken, Triple-of_Keeps, Keeps-of_Triple,
}
use hey.Xray
use hey.Tun
use hey.Frame.Steps
use hey.Frame.Loads
use hey.Valid.Rules
use hey.Valid.Rules.{Past, Admits, Closed, frame}
use hey.Valid.Plane

-- `OnFd fd` is what holds in addition once the fd is made inheritable, and lets the engines start on it.
pub record DataPlane (env : Env) (P : ℕ → Trace → Type 0) : Type 1 where
  pub closed : Closed P
  pub OnFd : ℤ → ℕ → Trace → Type 0
  pub made :
      (fd : ℤ) {n : Text → M NapiResult} {f : Unit {0} → M NapiResult}
      → ltb_ℤ fd (pos 0) ≡ false
      → ((e : Text) → Admits P (n e))
      → ((x : Unit {0}) → Admits (OnFd fd) (f x))
      → Admits P
          (Calls.make_fd_inheritable env fd >>= λ i. elim i [ failure e ↦ n e | success x ↦ f x ])
  pub launch_gvisor :
      (fd : ℤ) (host : Text) (port mtu : ℤ)
      → ltb_ℤ fd (pos 0) ≡ false
      → Tun.invalid_endpoint host port mtu ≡ false
      → Admits (OnFd fd) (Tun.launch_gvisor env fd host port mtu)
  pub launch_hev :
      (fd : ℤ) (config : Text)
      → ltb_ℤ fd (pos 0) ≡ false
      → is_empty config ≡ false
      → Admits (OnFd fd) (Tun.launch_hev env config fd)
  pub of_reset : (engine : ℕ) (t : Trace) → P engine t → P tun_engine_none t
  pub of_detach :
      (f : ℕ) (t : Trace) → P tun_engine_none t → P tun_engine_none (State.thread_detached f ∷ t)

module _ {env : Env} {P : ℕ → Trace → Type 0} (d : DataPlane env P) where
  result : (ok : Bool) (message : Text) → Admits P (Calls.create_result ok message)
  result = Rules.Admits-result d.closed

  Admits-run_tun2socks :
      (fd : ℤ) (host : Text) (port mtu : ℤ)
      → ltb_ℤ fd (pos 0) ≡ false
      → Tun.invalid_endpoint host port mtu ≡ false
      → Admits P (Tun.run_tun2socks env fd host port mtu)
  unfolding Tun.run_tun2socks
  Admits-run_tun2socks fd host port mtu h k = Keeps->> (Rules.Admits-bytes d.closed _ _) (
      Keeps->>= (Loads.Keeps-load_tun2socks_core (frame d.closed) env) λ t.
        Keeps-try t (Plane.Admits-load_failed d.closed)
          λ _. d.made fd h (result _) λ _. d.launch_gvisor fd host port mtu h k)

  Admits-run_hev :
      (config : Text) (fd : ℤ)
      → ltb_ℤ fd (pos 0) ≡ false
      → is_empty config ≡ false
      → Admits P (Tun.run_hev env config fd)
  unfolding Tun.run_hev
  Admits-run_hev config fd h k = Keeps->> (Rules.Admits-bytes d.closed _ _) (
      Keeps->>= (Loads.Keeps-load_hev_core (frame d.closed) env) λ t.
        Keeps-try t (Plane.Admits-load_failed d.closed)
          λ _. d.made fd h (result _) λ _. d.launch_hev fd config h k)

  pub Admits-start_tun2socks : (args : List ℕ) → Admits P (Tun.start_tun2socks env args)
  unfolding Tun.start_tun2socks
  Admits-start_tun2socks args =
      let fd = Calls.get_int_arg env (Calls.arg args 0) in
      let host = Calls.get_string_arg env (Calls.arg args 1) in
      let port = Calls.get_int_arg env (Calls.arg args 2) in
      let mtu = Calls.get_int_arg env (Calls.arg args 3) in
      Keeps-if (ltb (length args) 4) (result _ _) (
        Keeps-unless (ltb_ℤ fd (pos 0)) (result _ _) λ h.
          Keeps-unless (Tun.invalid_endpoint host port mtu) (result _ _) λ k.
            Keeps->>= (Keeps-gets _)
              λ running. Keeps-if running (result _ _) (Admits-run_tun2socks fd host port mtu h k))

  pub Admits-start_hev_tun : (args : List ℕ) → Admits P (Tun.start_hev_tun env args)
  unfolding Tun.start_hev_tun
  Admits-start_hev_tun args =
      let fd = Calls.get_int_arg env (Calls.arg args 0) in
      let config = Calls.get_string_arg env (Calls.arg args 1) in
      Keeps-if (ltb (length args) 2) (result _ _) (
        Keeps-unless (ltb_ℤ fd (pos 0)) (result _ _) λ h.
          Keeps-unless (is_empty config) (result _ _) λ k.
            Keeps->>= (Keeps-gets _)
              λ running. Keeps-if running (result _ _) (Admits-run_hev config fd h k))

  -- The engine in use is reset first, so that the rest runs with none.
  abbrev Reset : ℕ → Trace → Type 0
  Reset engine t = (engine ≡ tun_engine_none) × P tun_engine_none t

  Reset-IsClosed : Closed Reset
  Reset-IsClosed = record {
    of_event = λ e g t v p. (p.0, d.closed.of_event e tun_engine_none t v p.1);
  }

  Admits-detach_stop : (f : Option ℕ) → Admits Reset (Tun.detach_stop f)
  unfolding Tun.detach_stop emit
  Admits-detach_stop none = Steps.Keeps-crash (frame Reset-IsClosed)
  Admits-detach_stop (some f) = record {
    keeps = λ s h. record { past = (h.past.0, d.of_detach f s.trace h.past.1) };
  }

  Admits-stop_gvisor : Admits Reset (Tun.stop_gvisor env)
  unfolding Tun.stop_gvisor
  Admits-stop_gvisor = Keeps->>= (Loads.Keeps-load_tun2socks_core (frame Reset-IsClosed) env) λ t.
      Keeps-try t (Rules.Admits-result Reset-IsClosed _) λ _.
        Keeps->>= (Keeps-gets _)
          λ stop. Keeps->> (Admits-detach_stop stop) (Rules.Admits-result Reset-IsClosed _ _)

  resets : Triple anything (Past P) (Tun.set_tun_engine tun_engine_none) (λ _. Past Reset)
  unfolding Tun.set_tun_engine modify
  resets = record { run = λ s h. record { past = (refl, d.of_reset s.tun_engine s.trace h.past) } }

  of_Reset : (s : Bridge) → Past Reset s → Past P s
  of_Reset s h = record { past = rw h.past.0 h.past.1 }

  Admits-stop_engine :
      (engine : ℕ)
      → Admits P (
          Tun.set_tun_engine tun_engine_none
          >> (Xray.set_tun_running false
              >> (if engine == tun_engine_hev then Tun.stop_hev env else Tun.stop_gvisor env)))
  unfolding ◌>>◌
  Admits-stop_engine engine =
      Keeps-of_Triple
        (Triple->>= resets λ _. Triple-weaken (Triple-of_Keeps rest) (λ r s. of_Reset s))
    where
      rest : Admits Reset (
          Xray.set_tun_running false
          >> (if engine == tun_engine_hev then Tun.stop_hev env else Tun.stop_gvisor env))
      rest = Keeps->> (Rules.Admits-tun Reset-IsClosed _) (
          Keeps-if (engine == tun_engine_hev) (Plane.Admits-stop_hev Reset-IsClosed env)
            Admits-stop_gvisor)

  pub Admits-stop_tun2socks : Admits P (Tun.stop_tun2socks env)
  unfolding Tun.stop_tun2socks
  Admits-stop_tun2socks =
      Keeps->>= (Keeps-gets _)
        λ running. Keeps-if (not running) (result _ _) (Keeps->>= (Keeps-gets _) Admits-stop_engine)
