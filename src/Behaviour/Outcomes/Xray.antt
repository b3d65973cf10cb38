-- ===== src/Behaviour/Outcomes/Xray.antt =====
-- What the answers of `startXray` and `stopXray` say of the globals afterwards.
use hey.Bridge.Keeps.{no_stop}
use hey.Prelude.{ℕ, List, refl, true, false, not, if◌then◌else◌, arith}
use hey.Codec.Text.{Text}
use hey.Bridge.State.{Env, Bridge}
use hey.Bridge.Monad.{M, pure, gets, modify, emit, ◌>>=◌, ◌>>◌}
use hey.Bridge.Calls
use hey.Bridge.Calls.{NapiResult}
use hey.Bridge.Keeps.{Ensures}
use hey.Xray
use hey.Health.Invariant.{any, Healthy}
use hey.Health.XrayHandlers
use hey.Behaviour.Answers.{
  Says, Answers, Always->>=, Always->>, Always-if, Always-try, Answers-failure, Answers-xray_failed,
  answers_rules, Answers-set, Answers-clear, success_here, Always-Healthy,
}
use hey.Behaviour.Outcomes.{XrayRuns, XrayStopped}

Answers-judge_start : (response : Text) → Answers XrayRuns (Xray.judge_start response)
unfolding Xray.judge_start Xray.xray_failed Xray.set_xray_running Calls.create_result Calls.log
    modify emit pure ◌>>=◌ ◌>>◌
Answers-judge_start response = record { run = λ s. ground arith }

Answers-xray_already :
    (message : Text) {n : M NapiResult}
    → Answers XrayRuns n
    → Answers XrayRuns
        (gets (λ s. s.xray_running) >>= λ b. if b then Calls.create_result true message else n)
Answers-xray_already message k =
    Answers-set (λ s. s.xray_running) _ _ (success_here XrayRuns message) k

already_stopped-XrayStopped :
    (message : Text) {n : M NapiResult}
    → Answers XrayStopped n
    → Answers XrayStopped
        (gets (λ s. s.xray_running) >>= λ b. if not b then Xray.already_stopped message else n)
unfolding Xray.already_stopped Xray.set_tun_running modify ◌>>◌
already_stopped-XrayStopped message k =
    Answers-clear (λ s. s.xray_running) _ _
      (λ s e. success_here XrayStopped message (record s { tun_running = false }) (e, refl)) k

Answers-judge_stop : (response : Text) → Answers XrayStopped (Xray.judge_stop response)
unfolding Xray.judge_stop Xray.set_xray_running Xray.set_tun_running Calls.create_result Calls.log
    modify emit pure ◌>>=◌ ◌>>◌
Answers-judge_stop response = record { run = λ s. ground arith }

module _ (env : Env) where
  Answers-start_loaded : (config : Text) → Answers XrayRuns (Xray.start_loaded env config)
  unfolding Xray.start_loaded
  Answers-start_loaded config = Always->>= _ _ λ t.
      Always-try t Answers-xray_failed
        λ _. Always->>= _ _ λ u. Always-try u Answers-xray_failed Answers-judge_start

  Answers-run_xray : (config work_dir : Text) → Answers XrayRuns (Xray.run_xray env config work_dir)
  unfolding Xray.run_xray
  Answers-run_xray config work_dir = Always->> _ _ (
      Always->>= _ _ λ a.
        Always->>= _ _ λ m. Always-if (not a) (Answers-xray_failed m) (Answers-start_loaded config))

  Answers-start_xray : (args : List ℕ) → Answers XrayRuns (Xray.start_xray env args)
  unfolding Xray.start_xray
  Answers-start_xray args = search (answers_rules, Answers-xray_already, Answers-run_xray) depth 20

  -- From a state of `Healthy any`, `startXray` returns, in a state of `Healthy any`:
  -- the returned message is `last_message`, and on success `xray_running` is set.
  pub start_xray-outcome :
      (args : List ℕ) (s : Bridge)
      → Healthy any s
      → Ensures no_stop (λ r t. Healthy any t × Says XrayRuns r t) (Xray.start_xray env args s)
  start_xray-outcome args =
      Always-Healthy no_stop (XrayHandlers.Keeps-start_xray env args) (Answers-start_xray args)

  Answers-stop_running_xray : Answers XrayStopped (Xray.stop_running_xray env)
  unfolding Xray.stop_running_xray
  Answers-stop_running_xray = Always->>= _ _ λ t.
      Always-try t Answers-failure
        λ _. Always->>= _ _ λ u. Always-try u Answers-failure Answers-judge_stop

  Answers-stop_xray : Answers XrayStopped (Xray.stop_xray env)
  unfolding Xray.stop_xray
  Answers-stop_xray = already_stopped-XrayStopped _ Answers-stop_running_xray

  -- From a state of `Healthy any`, `stopXray` returns, in a state of `Healthy any`:
  -- the returned message is `last_message`, and on success neither `xray_running` nor
  -- `tun_running` is set.
  pub stop_xray-outcome :
      (s : Bridge)
      → Healthy any s
      → Ensures no_stop (λ r t. Healthy any t × Says XrayStopped r t) (Xray.stop_xray env s)
  stop_xray-outcome = Always-Healthy no_stop (XrayHandlers.Keeps-stop_xray env) Answers-stop_xray
