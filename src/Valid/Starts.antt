-- ===== src/Valid/Starts.antt =====
-- What is kept by the data plane: its starts ask only what is valid, on an fd made inheritable before.
use hey.Prelude.{
  ℕ, ◌≡◌, refl, Bool, true, false, not, ◌&&◌, ◌||◌, ℤ, pos, ltb_ℤ, is_empty, Option, none, some,
}
use hey.Codec.Text.{Text, c_str}
use hey.Bridge.State
use hey.Bridge.State.{Env, Trace, Bridge}
use hey.Bridge.Calls
use hey.Bridge.Keeps.{Keeps->>=, Keeps->>, Keeps-if, Keeps-gets}
use hey.Tun
use hey.Frame.Steps
use hey.Valid.Rules
use hey.Valid.Plane
use hey.Valid.DataPlane.{DataPlane}
use hey.Valid.Fds.{Kept, Held, Admissible-IsClosed, Holding-IsClosed, Holding-cons, Admits-made}
use hey.Bridge.Monad.{emit, ask, ◌>>◌}
use hey.Xray as Handlers
use hey.Valid.Rules.{Admits, Closed, Closed-IsLoud, frame}

-- The endpoint that `StartTun2Socks` lets through.
endpoint-tested :
    (host : Text) (fd port mtu : ℤ)
    → ltb_ℤ fd (pos 0) ≡ false
    → Tun.invalid_endpoint host port mtu ≡ false
    → (not (ltb_ℤ fd (pos 0))
        && (ltb_ℤ (pos 0) port
            && (not (ltb_ℤ (pos 65535) port)
                && (not (ltb_ℤ mtu (pos 576)) && not (ltb_ℤ (pos 1500) mtu)))))
      ≡ true
unfolding Tun.invalid_endpoint
endpoint-tested host fd port mtu h k =
    tests (is_empty host) (ltb_ℤ fd (pos 0)) (ltb_ℤ (pos 0) port) (ltb_ℤ (pos 65535) port)
      (ltb_ℤ mtu (pos 576)) (ltb_ℤ (pos 1500) mtu) h k
  where
    tests :
        (e f p q r t : Bool)
        → f ≡ false
        → (e || (not p || (q || (r || t)))) ≡ false
        → (not f && (p && (not q && (not r && not t)))) ≡ true
    tests false false true false false false h k = refl
    tests true f p q r t h k = cc
    tests false true p q r t h k = cc
    tests false false false q r t h k = cc
    tests false false true true r t h k = cc
    tests false false true false true t h k = cc
    tests false false true false false true h k = cc

module _ (env : Env) where
  closed : Closed (Kept env)
  closed = Admissible-IsClosed env

  module _ (fd : ℤ) where
    held : Closed (Held env fd)
    held = Holding-IsClosed env fd

    -- A start on the fd that is held.
    Admits-call_status :
        (f : Option ℕ) (host : Text) (port mtu : ℤ)
        → ltb_ℤ fd (pos 0) ≡ false
        → Tun.invalid_endpoint host port mtu ≡ false
        → Admits
            (Held env fd)
            (Tun.call_status env f (State.start_arguments fd (c_str host) port mtu))
    unfolding Tun.call_status ask
    Admits-call_status none host port mtu h k = Steps.Keeps-crash (frame held)
    Admits-call_status (some f) host port mtu h k = record {
      keeps = λ s p. record {
        past =
            Holding-cons env fd (State.called f (State.start_arguments fd (c_str host) port mtu))
              s.trace (rw p.past.1 (endpoint-tested host fd port mtu h k)) p.past;
      };
    }

    Admits-start_hev_thread :
        (f : Option ℕ) (config : Text)
        → ltb_ℤ fd (pos 0) ≡ false
        → is_empty config ≡ false
        → Admits (Held env fd) (Tun.start_hev_thread f config fd)
    unfolding Tun.start_hev_thread
    Admits-start_hev_thread none config h k = Steps.Keeps-crash (frame held)
    Admits-start_hev_thread (some f) config h k = Keeps->> started (Rules.Admits-hev held _)
      where
        started :
            Admits (Held env fd) (emit (State.thread_started f (State.config_argument config fd)))
        started =
            unfold emit in
            record {
              keeps = λ s p. record {
                past =
                    Holding-cons env fd (State.thread_started f (State.config_argument config fd))
                      s.trace (rw (p.past.1, h, k) refl) p.past;
              };
            }

    Admits-running :
        (engine : ℕ) (message : Text)
        → Admits (Held env fd) (
            Handlers.set_tun_running true
            >> (Tun.set_tun_engine engine >> Calls.create_result true message))
    Admits-running engine message =
        Keeps->> (Rules.Admits-tun held _)
          (Keeps->> (Rules.Admits-engine _ (λ g t p. p)) (Rules.Admits-result held _ _))

    Admits-launch_gvisor :
        (host : Text) (port mtu : ℤ)
        → ltb_ℤ fd (pos 0) ≡ false
        → Tun.invalid_endpoint host port mtu ≡ false
        → Admits (Held env fd) (Tun.launch_gvisor env fd host port mtu)
    unfolding Tun.launch_gvisor
    Admits-launch_gvisor host port mtu h k = Keeps->>= (Keeps-gets _) λ start.
        Keeps->>= (Admits-call_status start host port mtu h k)
          λ n. Keeps-if (not (Tun.is_zero n)) (Rules.Admits-result held _ _) (Admits-running _ _)

    Admits-launch_hev :
        (config : Text)
        → ltb_ℤ fd (pos 0) ≡ false
        → is_empty config ≡ false
        → Admits (Held env fd) (Tun.launch_hev env config fd)
    unfolding Tun.launch_hev
    Admits-launch_hev config h k = Keeps->> (Plane.Admits-join_hev_thread held env) (
        Keeps->>= (Keeps-gets _)
          λ start. Keeps->> (Admits-start_hev_thread start config h k) (Admits-running _ _))

  pub Kept-DataPlane : DataPlane env (Kept env)
  Kept-DataPlane = record {
    closed = closed;
    OnFd = Held env;
    made = λ fd h k l. Admits-made env fd h k l;
    launch_gvisor = Admits-launch_gvisor;
    launch_hev = λ fd config h k. Admits-launch_hev fd config h k;
    of_reset = λ g t p. p;
    of_detach = λ f t p. (refl, p);
  }
