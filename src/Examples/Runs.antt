-- ===== src/Examples/Runs.antt =====
-- The theorems on sequences of calls and single calls as steps at concrete inputs.
use hey.Bridge.Keeps.{no_crash, no_stop}
use hey.Prelude.{◌≡◌, refl, [], ◌∷◌, false, ◌==◌, not, map}
use hey.Bridge.State.{initial, tun_engine_none}
use hey.Bridge.Keeps.{Ensures}
use hey.Module
use hey.Module.{Call}
use hey.Health.Invariant.{any, Healthy, initial-IsHealthy}
use hey.Health.Calls.{run-initial}
use hey.Valid.Rules.{Past}
use hey.Valid.Fds.{Kept}
use hey.Life.{life, Step, Run}
use hey.Life.Calls.{accepted, handle-Step, run-Run}
use hey.Life.Protocol.{replay, xray_after, singbox_after, methods, run-replay, run-Plane}
use hey.Valid.Calls.{run-valid}
use hey.Quiet.{runtime, handle-runtime}
use hey.Examples.{sample_env, sample_calls, plane_calls}

run-initial_example :
    Ensures no_crash (λ _ s. Healthy any s) (Module.run sample_env sample_calls initial)
run-initial_example =
    run-initial sample_env sample_calls ((λ e. cc), ((λ e. cc), ((λ e. cc), ((λ e. cc), tt))))

run-Run_example :
    Ensures no_crash
      (λ rs s.
        Healthy any s
        × Run (map (λ c. c.method) sample_calls) (life initial) (map accepted rs) (life s))
      (Module.run sample_env sample_calls initial)
run-Run_example =
    run-Run sample_env no_crash sample_calls (tt, ((λ t e. tt), ((λ t e. tt), (tt, tt))))

handle-Step_example :
    Ensures no_stop
      (λ r t. Healthy any t × Step Module.start_hev_tun_method (life initial) (accepted r) (life t))
      (Module.handle sample_env Module.start_hev_tun_method (7 ∷ 1 ∷ []) initial)
handle-Step_example =
    handle-Step sample_env no_stop Module.start_hev_tun_method (7 ∷ 1 ∷ []) initial (λ t e. cc)
      initial-IsHealthy

run-replay_example :
    Ensures no_crash
      (λ rs s.
        (s.xray_running ≡ replay xray_after (methods sample_calls) (map accepted rs) false)
        × (s.singbox_running ≡ replay singbox_after (methods sample_calls) (map accepted rs) false))
      (Module.run sample_env sample_calls initial)
run-replay_example =
    run-replay sample_env no_crash sample_calls (tt, ((λ t e. tt), ((λ t e. tt), (tt, tt))))

run-Plane_example :
    Ensures no_crash
      (λ _ s. s.tun_running ≡ not (s.tun_engine == tun_engine_none))
      (Module.run sample_env plane_calls initial)
run-Plane_example =
    run-Plane sample_env no_crash plane_calls (tt, ((λ t e. tt), (tt, tt)))
      (refl, (refl, (refl, tt)))

run-valid_example :
    Ensures no_crash
      (λ _ s. Healthy any s × Past (Kept sample_env) s)
      (Module.run sample_env plane_calls initial)
run-valid_example = run-valid sample_env no_crash plane_calls (tt, ((λ t e. tt), (tt, tt)))

handle-runtime_example :
    Ensures no_stop
      (λ _ t. Healthy any t × (runtime t ≡ runtime initial))
      (Module.handle sample_env Module.query_stats_method (2 ∷ []) initial)
handle-runtime_example =
    handle-runtime sample_env Module.query_stats_method (2 ∷ []) initial refl initial-IsHealthy
