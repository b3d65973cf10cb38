-- ===== src/Examples/Outcomes.antt =====
-- The theorems on the answers of the handlers at concrete inputs.
use hey.Bridge.Keeps.{no_stop}
use hey.Prelude.{[], ◌∷◌}
use hey.Bridge.State.{initial}
use hey.Bridge.Keeps.{Ensures}
use hey.Module
use hey.Behaviour.Outcomes.Handle.{Tells, xray_starts, handle-outcome}
use hey.Ping
use hey.Health.Invariant.{any, Healthy, initial-IsHealthy}
use hey.Behaviour.Outcomes.{XrayRuns}
use hey.Behaviour.Pings.{Measured, ping_outbound-outcome}
use hey.Ping.{config_file, port_digits, digits_of}
use hey.Examples.{sample_env}

handle-outcome_example :
    Ensures no_stop
      (λ r t. Healthy any t × Tells XrayRuns r t)
      (Module.handle sample_env Module.start_xray_method (1 ∷ 2 ∷ []) initial)
handle-outcome_example =
    handle-outcome sample_env (1 ∷ 2 ∷ []) initial xray_starts initial-IsHealthy

ping_outbound-outcome_example :
    Ensures no_stop
      (λ r t. Healthy any t × Measured r t)
      (Ping.ping_outbound sample_env (1 ∷ 2 ∷ 2 ∷ 5 ∷ []) initial)
ping_outbound-outcome_example =
    ping_outbound-outcome sample_env (1 ∷ 2 ∷ 2 ∷ 5 ∷ []) initial initial-IsHealthy
