-- ===== src/Behaviour/Outcomes/Handle.antt =====
-- The answers of the handlers that start and stop something, by the name they are called with.
use hey.Prelude.{ℕ, List}
use hey.Bridge.State.{Env, Bridge}
use hey.Bridge.Monad.{M, Outcome, done, crashed, blocked, pure, ◌>>=◌}
use hey.Bridge.Keeps.{Allowed, Ensures, no_stop, no_crash}
use hey.Bridge.Calls.{NapiResult}
use hey.Module
use hey.Module.{Method, Reply}
use hey.Health.Invariant.{any, Healthy}
use hey.Behaviour.Answers.{Says}
use hey.Behaviour.Outcomes.{XrayRuns, XrayStopped, SingboxRuns, SingboxStopped, PlaneRuns}
use hey.Behaviour.Outcomes.Xray.{start_xray-outcome, stop_xray-outcome}
use hey.Behaviour.Outcomes.Singbox.{singbox_start-outcome, singbox_stop-outcome}
use hey.Behaviour.Outcomes.Singbox.{singbox_set_tun_fd-outcome}
use hey.Behaviour.Outcomes.Plane.{start_tun2socks-outcome, start_hev_tun-outcome}

-- What success means, of the methods that start or stop a core or start the data plane.
pub data Announced : Method → (Bridge → Type 0) → Type 1 where
  xray_starts : Announced Module.start_xray_method XrayRuns
  xray_stops : Announced Module.stop_xray_method XrayStopped
  singbox_starts : Announced Module.singbox_start_method SingboxRuns
  singbox_stops : Announced Module.singbox_stop_method SingboxStopped
  singbox_fd : Announced Module.singbox_set_tun_fd_method PlaneRuns
  gvisor_starts : Announced Module.start_tun2socks_method PlaneRuns
  hev_starts : Announced Module.start_hev_tun_method PlaneRuns

-- Only the start of hev may wait, for its old thread.
abbrev pub may : Method → Allowed
may Module.start_hev_tun_method = no_crash
may m = no_stop

-- The reply is a result whose message is the last message, and whose success implies the predicate.
abbrev pub Tells : (Bridge → Type 0) → Reply → Bridge → Type 0
Tells P (Module.result r) t = Says P r t
Tells P reply t = ⊥

replied :
    (C : Allowed) (P : Bridge → Type 0) (m : M NapiResult) (s : Bridge)
    → Ensures C (λ r t. Healthy any t × Says P r t) (m s)
    → Ensures C (λ r t. Healthy any t × Tells P r t) (Module.reply Module.result m s)
unfolding Module.reply ◌>>=◌ pure
replied C P m s h = of_outcome (m s) h
  where
    of_outcome :
        (o : Outcome NapiResult)
        → Ensures C (λ r t. Healthy any t × Says P r t) o
        → Ensures C
            (λ r t. Healthy any t × Tells P r t)
            (elim o [
              | done a t ↦ pure (Module.result a) t
              | crashed t ↦ crashed t
              | blocked t ↦ blocked t
            ])
    of_outcome (done a t) h = h
    of_outcome (crashed t) h = h
    of_outcome (blocked t) h = h

-- From a healthy state, a call that starts or stops a core or starts the data plane returns in a healthy
-- state, but for startHevTun, which may wait and does not crash; its message is the last message, and
-- success means what is announced of the method: that Xray counts as running, or sing-box, or the data
-- plane; or, of a stop, that neither the core nor the data plane does.
pub handle-outcome :
    (env : Env) {m : Method} {P : Bridge → Type 0} (args : List ℕ) (s : Bridge)
    → Announced m P
    → Healthy any s
    → Ensures (may m) (λ r t. Healthy any t × Tells P r t) (Module.handle env m args s)
unfolding Module.handle
handle-outcome env args s xray_starts h = replied no_stop _ _ s (start_xray-outcome env args s h)
handle-outcome env args s xray_stops h = replied no_stop _ _ s (stop_xray-outcome env s h)
handle-outcome env args s singbox_starts h =
    replied no_stop _ _ s (singbox_start-outcome env args s h)
handle-outcome env args s singbox_stops h = replied no_stop _ _ s (singbox_stop-outcome env s h)
handle-outcome env args s singbox_fd h =
    replied no_stop _ _ s (singbox_set_tun_fd-outcome env args s h)
handle-outcome env args s gvisor_starts h =
    replied no_stop _ _ s (start_tun2socks-outcome env args s h)
handle-outcome env args s hev_starts h = replied no_crash _ _ s (start_hev_tun-outcome env args s h)
