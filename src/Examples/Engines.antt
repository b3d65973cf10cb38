-- ===== src/Examples/Engines.antt =====
-- The theorems on the adapter at concrete inputs: a start, a stop and a start again.
use hey.Prelude.{ℕ, ◌≡◌, refl, [], ◌∷◌, List, true, false, pos, some, none, Option, Bool, ℤ}
use hey.Bridge.State
use hey.Bridge.State.{Env, Trace, Bridge, initial, tun_engine_gvisor}
use hey.Bridge.Keeps.{Ensures, no_crash, no_stop}
use hey.Adapter
use hey.Adapter.Joint
use hey.Bridge.Calls
use hey.Bridge.Monad
use hey.Codec.Text
use hey.Codec.Text.{Text, c_str}
use hey.Loader.Engines
use hey.Tun
use hey.Xray
use hey.Module
use hey.Module.{Call}
use hey.Health.Invariant.{any, Healthy}
use hey.Adapter.{
  hey_tun2_socks_start, hey_tun2_socks_stop, Adapter, During, swaps, stops, refuses,
  start_tun2socks, stop_tun2socks,
}
use hey.Adapter.Alternation.{InTurns}
use hey.Adapter.Joint.{Schedule, Loads, Came, joint, overtaken, joint-InTurns}
use hey.Adapter.Alone.{launched}
use hey.Adapter.Launch.{launch_gvisor-launched}
use hey.Adapter.Agrees.{Follows, run-agrees}
use hey.Examples.{sample_env}

-- The engine starts, and no other thread runs meanwhile.
abbrev undisturbed : During
undisturbed = record { before_insert = []; before_start = []; before_store = []; fatal = false }

-- Every stop runs at once, and none at all.
abbrev at_once : Schedule
at_once t = record { during = undisturbed; after = swaps ∷ stops ∷ [] }

abbrev never : Schedule
never t = record { during = undisturbed; after = [] }

answered : Option (ℤ × Adapter) → ℤ
answered none = pos 0
answered (some (n, a)) = n

abbrev start_of : Schedule → Trace → ℕ → ℤ → Text → ℤ → ℤ → Option (ℤ × Adapter)
start_of w t f fd host port mtu =
    hey_tun2_socks_start (w (State.called f (State.start_arguments fd host port mtu) ∷ t)).during fd
      host port mtu (joint w t)

abbrev adapter_status : Schedule → Trace → ℕ → State.Arguments → ℤ
adapter_status w t f (State.start_arguments fd host port mtu) =
    answered (start_of w t f fd host port mtu)
adapter_status w t f _ = pos 0

abbrev adapter_env : Schedule → Env
adapter_env w = record sample_env { status = adapter_status w }

comes :
    (a : Adapter) (b refused : Bool) (fd : ℤ) (host : Text) (port mtu : ℤ)
    → a.running ≡ b
    → refuses fd host port mtu ≡ refused
    → Came
        (answered (hey_tun2_socks_start undisturbed fd host port mtu a))
        (hey_tun2_socks_start undisturbed fd host port mtu a)
unfolding hey_tun2_socks_start start_tun2socks answered
comes a true refused fd host port mtu e r = rw (hey_tun2_socks_start, start_tun2socks, e) refl
comes a false true fd host port mtu e r = rw (hey_tun2_socks_start, start_tun2socks, e, r) refl
comes a false false fd host port mtu e r = rw (hey_tun2_socks_start, start_tun2socks, e, r) refl

at_once-Loads : Loads (adapter_env at_once) at_once
at_once-Loads = record {
  status = λ t f fd host port mtu. comes (joint at_once t) _ _ fd host port mtu refl refl;
}

abbrev restart_calls : List Call
restart_calls =
    record { method = Module.start_tun2socks_method; args = 7 ∷ 2 ∷ 1080 ∷ 1400 ∷ [] }
    ∷ record { method = Module.stop_tun2socks_method; args = [] }
    ∷ record { method = Module.start_tun2socks_method; args = 7 ∷ 2 ∷ 1080 ∷ 1500 ∷ [] }
    ∷ []

run-agrees_example :
    Ensures no_crash
      (λ _ s. Healthy any s × Follows at_once s)
      (Module.run (adapter_env at_once) restart_calls initial)
run-agrees_example = run-agrees at_once-Loads no_crash restart_calls (tt, ((λ t e. tt), (tt, tt)))

-- gVisor's library is loaded.
abbrev engine_state : Bridge
engine_state = record initial {
  tun2socks = record initial.tun2socks { start = some 3; stop = some 4 };
}

launch_gvisor-launched_example :
    Ensures no_stop
      (λ r t.
        (r.ok ≡ true)
        × ((t.tun_running ≡ true)
            × ((t.tun_engine ≡ tun_engine_gvisor)
                × (joint at_once t.trace
                    ≡ launched
                        (pos 7)
                        (c_str (47 ∷ []))
                        (pos 1080)
                        (pos 1400)
                        (joint at_once engine_state.trace)))))
      (Tun.launch_gvisor (adapter_env at_once) (pos 7) (47 ∷ []) (pos 1080) (pos 1400) engine_state)
launch_gvisor-launched_example =
    launch_gvisor-launched at_once-Loads engine_state (pos 7) (47 ∷ []) (pos 1080) (pos 1400)
      (unfold initial in refl) (unfold initial joint in refl) refl
      (unfold Tun.invalid_endpoint in refl) (unfold c_str in refl)

-- What the bridge did in those calls, of what the adapter sees.
abbrev restart_trace : Trace
restart_trace =
    State.called 3 (State.start_arguments (pos 7) (47 ∷ []) (pos 1080) (pos 1500))
    ∷ State.thread_detached 4
    ∷ State.called 3 (State.start_arguments (pos 7) (47 ∷ []) (pos 1080) (pos 1400))
    ∷ []

joint-InTurns_example : InTurns (joint at_once restart_trace)
joint-InTurns_example = joint-InTurns at_once restart_trace (
    unfold joint Joint.act Adapter.run_stops Adapter.stop_tun2socks hey_tun2_socks_stop
      hey_tun2_socks_start Adapter.start_tun2socks Adapter.ask_engine Adapter.refuses in
    refl)

-- A stop that is late: the bridge takes gVisor to run, and the adapter's engine stops.
late_stop :
    Ensures no_crash
      (λ _ s.
        (s.tun_running ≡ true)
        × ((s.tun_engine ≡ tun_engine_gvisor)
            × ((overtaken never s.trace ≡ true)
                × ((stop_tun2socks swaps (joint never s.trace)).running ≡ false))))
      (Module.run (adapter_env never) restart_calls initial)
unfolding Module.handle Module.reply Module.run Joint.act Adapter.run_stops Adapter.stop_tun2socks
    Adapter.ask_engine answered Adapter.refuses Adapter.start_tun2socks Calls.create_result
    Calls.dlerror Calls.dlopen Calls.dlsym Calls.get_int_arg Calls.get_string_arg Calls.log
    Calls.make_fd_inheritable Calls.open_library Calls.set_inheritable Monad.ask Monad.emit
    Monad.gets Monad.modify Monad.pure Monad.◌>>=◌ Monad.◌>>◌ Text.c_str Text.text
    Engines.load_tun2socks_core Engines.open_tun2socks Engines.resolve_tun2socks
    Engines.set_tun2socks Engines.tun2socks_opened Tun.call_status Tun.detach_stop
    Tun.invalid_endpoint Tun.launch_gvisor Tun.run_tun2socks Tun.set_tun_engine Tun.start_tun2socks
    Tun.stop_gvisor Tun.stop_tun2socks Xray.set_bytes Xray.set_tun_running hey_tun2_socks_start
    hey_tun2_socks_stop initial joint
late_stop = (refl, (refl, (refl, refl)))
