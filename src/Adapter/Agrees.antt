-- ===== src/Adapter/Agrees.antt =====
-- The bridge's word for the engine in use against the adapter's flag, over every sequence of calls.
use hey.Prelude.{
  ℕ, ◌≡◌, refl, List, Bool, true, false, not, ◌||◌, ◌==◌, All, ℤ, pos, ltb_ℤ, Option, none, some,
  if◌then◌else◌,
}
use hey.Codec.Text.{Text, text, c_str}
use hey.Bridge.State
use hey.Bridge.State.{Env, Event, Trace, Bridge, initial, tun_engine_none, tun_engine_gvisor}
use hey.Bridge.Monad.{M, emit, ask, crash, ◌>>=◌, ◌>>◌, success, failure}
use hey.Bridge.Calls
use hey.Bridge.Calls.{NapiResult}
use hey.Bridge.Keeps.{
  Allowed, Ensures, Triple, Triple->>=, Triple-weaken, Triple-of_Keeps, Keeps-of_Triple, anything,
  Keeps->>=, Keeps->>, Keeps-try, Keeps-gets,
}
use hey.Frame.Steps
use hey.Frame.Loads
use hey.Valid.Rules
use hey.Valid.Rules.{Past, Admits, Closed, frame}
use hey.Valid.Plane
use hey.Valid.DataPlane.{DataPlane}
use hey.Valid.Calls.{Admits-run}
use hey.Tun
use hey.Xray
use hey.Module
use hey.Module.{Call}
use hey.Health.Invariant.{any, Healthy, initial-IsHealthy}
use hey.Health.Calls.{Needs, run-Keeps}
use hey.Behaviour.Answers.{both}
use hey.Adapter.Alone.{no_stops}
use hey.Adapter.Joint.{Schedule, joint, overtaken, Loads}
use hey.Adapter.Safety.{
  Runs, Agrees, or-true, or-monotone, or-grows, or-answered, and-right, of_not, starts-safe,
  still-safe, Agrees-IsClosed, Runs-IsClosed, Agrees-of_Runs, safe-started, safe-hev,
}

-- The adapter's engine runs, unless a start has overtaken a stop, where the bridge has gVisor in use.
abbrev pub Follows : Schedule → Bridge → Type 0
Follows w s =
    (overtaken w s.trace || (not (s.tun_engine == tun_engine_gvisor) || (joint w s.trace).running))
    ≡ true

module _ {env : Env} {w : Schedule} (loads : Loads env w) where
  -- Behind a start of the adapter: where it answered zero, its engine runs.
  abbrev Status : ℤ → Bridge → Type 0
  Status n s = Past (Agrees w) s × (Tun.is_zero n ≡ true → Past (Runs w) s)

  call_status-Status :
      (f : Option ℕ) (fd : ℤ) (host : Text) (port mtu : ℤ)
      → Triple anything
          (Past (Agrees w))
          (Tun.call_status env f (State.start_arguments fd host port mtu))
          Status
  unfolding Tun.call_status ask crash
  call_status-Status none fd host port mtu = record { run = λ s h. tt }
  call_status-Status (some f) fd host port mtu = record {
    run = λ s h. (
      record {
        past =
            or-grows _ (overtaken w s.trace) _ _
              (λ p. or-monotone (not (s.tun_engine == tun_engine_gvisor)) _ _ λ r.
                safe-started w f fd host port mtu s.trace
                  (still-safe _ fd host port mtu (joint w s.trace) r))
              h.past;
      },
      λ z. record {
        past = or-answered (not (no_stops (joint w s.trace))) (overtaken w s.trace) _ λ p.
            safe-started w f fd host port mtu s.trace (
              starts-safe _ fd host port mtu (joint w s.trace) _ (of_not _ p)
                (loads.status s.trace f fd host port mtu) z);
      },
    );
  }

  Admits-running : Admits (Runs w) (
      Xray.set_tun_running true
      >> (Tun.set_tun_engine tun_engine_gvisor
          >> Calls.create_result true (text "tun2socks adapter started.")))
  Admits-running =
      Keeps->> (Rules.Admits-tun (Runs-IsClosed w) _)
        (Keeps->> (Rules.Admits-engine _ (λ g t h. h)) (Rules.Admits-result (Runs-IsClosed w) _ _))

  answered :
      (n : ℤ) (b : Bool)
      → Tun.is_zero n ≡ b
      → Triple anything
          (Status n)
          (if not b then Calls.create_result false (text "tun2socks adapter start failed.") else do
            Xray.set_tun_running true
            Tun.set_tun_engine tun_engine_gvisor
            Calls.create_result true (text "tun2socks adapter started."))
          (λ _. Past (Agrees w))
  answered n true e = record {
    run = λ s h.
        (Triple-weaken (Triple-of_Keeps Admits-running) (λ _ t. Agrees-of_Runs w t)).run s (h.1 e);
  }
  answered n false e = record {
    run = λ s h. (Rules.Admits-result (Agrees-IsClosed w) _ _).keeps s h.0;
  }

  Admits-launch_gvisor :
      (fd : ℤ) (host : Text) (port mtu : ℤ)
      → Admits (Agrees w) (Tun.launch_gvisor env fd host port mtu)
  unfolding Tun.launch_gvisor
  Admits-launch_gvisor fd host port mtu = Keeps->>= (Keeps-gets _) λ start. Keeps-of_Triple (
      Triple->>= (call_status-Status start fd (c_str host) port mtu)
        λ n. answered n (Tun.is_zero n) refl)

  Admits-start_hev_thread :
      (f : Option ℕ) (config : Text) (fd : ℤ) → Admits (Agrees w) (Tun.start_hev_thread f config fd)
  unfolding Tun.start_hev_thread emit
  Admits-start_hev_thread none config fd = Steps.Keeps-crash (frame (Agrees-IsClosed w))
  Admits-start_hev_thread (some f) config fd =
      Keeps->>
        (record {
          keeps = λ s h. record {
            past =
                or-monotone (overtaken w s.trace) _ _
                  (or-monotone (not (s.tun_engine == tun_engine_gvisor)) _ _
                    (safe-hev w f (State.config_argument config fd) s.trace))
                  h.past;
          };
        })
        (Rules.Admits-hev (Agrees-IsClosed w) _)

  Admits-launch_hev : (fd : ℤ) (config : Text) → Admits (Agrees w) (Tun.launch_hev env config fd)
  unfolding Tun.launch_hev
  Admits-launch_hev fd config = Keeps->> (Plane.Admits-join_hev_thread (Agrees-IsClosed w) env) (
      Keeps->>= (Keeps-gets _) λ start. Keeps->> (Admits-start_hev_thread start config fd) (
        Keeps->> (Rules.Admits-tun (Agrees-IsClosed w) _) (
          Keeps->> (Rules.Admits-engine _ (λ g t h. or-true _))
            (Rules.Admits-result (Agrees-IsClosed w) _ _))))

  Admits-made :
      (fd : ℤ) {n : Text → M NapiResult} {f : Unit {0} → M NapiResult}
      → ltb_ℤ fd (pos 0) ≡ false
      → ((e : Text) → Admits (Agrees w) (n e))
      → ((x : Unit {0}) → Admits (Agrees w) (f x))
      → Admits
          (Agrees w)
          (Calls.make_fd_inheritable env fd >>= λ i. elim i [ failure e ↦ n e | success x ↦ f x ])
  Admits-made fd h k l =
      Keeps->>= (Loads.Keeps-make_fd_inheritable (frame (Agrees-IsClosed w)) env fd h)
        λ i. Keeps-try i k l

  Agrees-DataPlane : DataPlane env (Agrees w)
  Agrees-DataPlane = record {
    closed = (Agrees-IsClosed w);
    OnFd = λ fd. Agrees w;
    made = λ fd h k l. Admits-made fd h k l;
    launch_gvisor = λ fd host port mtu h k. Admits-launch_gvisor fd host port mtu;
    launch_hev = λ fd config h k. Admits-launch_hev fd config;
    of_reset = λ g t h. or-true _;
    of_detach = λ f t h. or-true _;
  }

  -- Where the loaded library is the adapter and its starts come back (`Loads`), whenever the two steps of
  -- each detached stop run, a sequence of calls from the start of the process stops only as `C` allows,
  -- where `C` allows the stops that its methods may need (`Needs`); and where it returns, gVisor was once
  -- asked to start while a detached stop had not run to its end (`overtaken`), or the engine in use is not gVisor, or the adapter's engine runs.
  pub run-agrees :
      (C : Allowed) (calls : List Call)
      → All (λ c. Needs env C c.method) calls
      → Ensures C (λ _ s. Healthy any s × Follows w s) (Module.run env calls initial)
  unfolding initial
  run-agrees C calls h =
      both C (Healthy any) (λ _ s. Follows w s) (Module.run env calls initial)
        ((run-Keeps env {C = C} calls h).keeps initial initial-IsHealthy)
        ((Triple-weaken (Triple-of_Keeps (Admits-run Agrees-DataPlane calls)) (λ _ s. said s)).run
          initial (record { past = refl }))
    where
      said : (s : Bridge) → Past (Agrees w) s → Follows w s
      said s p =
          or-monotone (overtaken w s.trace) _ _
            (or-monotone (not (s.tun_engine == tun_engine_gvisor)) _ _
              (and-right (no_stops (joint w s.trace)) _))
            p.past
