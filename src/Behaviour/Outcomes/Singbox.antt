-- ===== src/Behaviour/Outcomes/Singbox.antt =====
-- What the answers of `singboxStart`, `singboxStop` and `singboxSetTunFd` say of the globals afterwards.
use hey.Bridge.Keeps.{no_stop}
use hey.Prelude.{ℕ, List, refl, true, false, not, if◌then◌else◌, Option, none, some, arith, ℤ}
use hey.Codec.Text.{Text}
use hey.Bridge.State.{Env, Bridge}
use hey.Bridge.Monad.{M, pure, gets, modify, emit, ◌>>=◌, ◌>>◌}
use hey.Bridge.Calls
use hey.Bridge.Calls.{NapiResult}
use hey.Bridge.Keeps.{Ensures}
use hey.Xray
use hey.Singbox
use hey.Health.Invariant.{any, Healthy}
use hey.Health.SingboxHandlers
use hey.Behaviour.Answers.{
  Says, Answers, Always->>=, Always->>, Always-try, Answers-failure, Answers-tun_failed,
  Answers-singbox_failed, answers_rules, Answers-set, Answers-clear, success_here, Always-Healthy,
}
use hey.Behaviour.Outcomes.{SingboxRuns, SingboxStopped, PlaneRuns}

Answers-singbox_already :
    (message : Text) {n : M NapiResult}
    → Answers SingboxRuns n
    → Answers SingboxRuns
        (gets (λ s. s.singbox_running) >>= λ b. if b then Calls.create_result true message else n)
Answers-singbox_already message k =
    Answers-set (λ s. s.singbox_running) _ _ (success_here SingboxRuns message) k

Answers-judge_singbox_start :
    (raw : Option Text) → Answers SingboxRuns (Singbox.judge_singbox_start raw)
unfolding Singbox.judge_singbox_start Singbox.singbox_failed Singbox.set_singbox_running
    Calls.create_result Calls.log modify emit pure ◌>>=◌ ◌>>◌
Answers-judge_singbox_start none = record { run = λ s. ground arith }
Answers-judge_singbox_start (some response) = record { run = λ s. ground arith }

already_stopped-SingboxStopped :
    (message : Text) {n : M NapiResult}
    → Answers SingboxStopped n
    → Answers SingboxStopped
        (gets (λ s. s.singbox_running) >>= λ b. if not b then Xray.already_stopped message else n)
unfolding Xray.already_stopped Xray.set_tun_running modify ◌>>◌
already_stopped-SingboxStopped message k =
    Answers-clear (λ s. s.singbox_running) _ _
      (λ s e. success_here SingboxStopped message (record s { tun_running = false }) (e, refl)) k

Answers-judge_singbox_stop :
    (raw : Option Text) → Answers SingboxStopped (Singbox.judge_singbox_stop raw)
unfolding Singbox.judge_singbox_stop Singbox.set_singbox_running Xray.set_tun_running
    Calls.create_result Calls.log modify emit pure ◌>>=◌ ◌>>◌
Answers-judge_singbox_stop none = record { run = λ s. ground arith }
Answers-judge_singbox_stop (some response) = record { run = λ s. ground arith }

plane_runs :
    (message : Text)
    → Answers PlaneRuns (Xray.set_tun_running true >> Calls.create_result true message)
unfolding Xray.set_tun_running modify ◌>>=◌ ◌>>◌ Calls.create_result Calls.log emit pure
plane_runs message = record { run = λ s. ground arith }

Answers-give_singbox_fd : (fd : ℤ) → Answers PlaneRuns (Singbox.give_singbox_fd fd)
unfolding Singbox.give_singbox_fd
Answers-give_singbox_fd fd = Always->> _ _ (Always->>= _ _ λ f. Always->> _ _ (plane_runs _))

module _ (env : Env) where
  Answers-run_singbox :
      (config work_dir : Text) → Answers SingboxRuns (Singbox.run_singbox env config work_dir)
  unfolding Singbox.run_singbox
  Answers-run_singbox config work_dir =
      Always->>= _ _
        λ t. Always-try t Answers-singbox_failed λ _. Always->>= _ _ Answers-judge_singbox_start

  Answers-singbox_start : (args : List ℕ) → Answers SingboxRuns (Singbox.singbox_start env args)
  unfolding Singbox.singbox_start
  Answers-singbox_start args =
      search (answers_rules, Answers-singbox_already, Answers-run_singbox) depth 20

  -- From a state of `Healthy any`, `singboxStart` returns, in a state of `Healthy any`:
  -- the returned message is `last_message`, and on success `singbox_running` is set.
  pub singbox_start-outcome :
      (args : List ℕ) (s : Bridge)
      → Healthy any s
      → Ensures no_stop
          (λ r t. Healthy any t × Says SingboxRuns r t)
          (Singbox.singbox_start env args s)
  singbox_start-outcome args =
      Always-Healthy no_stop (SingboxHandlers.Keeps-singbox_start env args)
        (Answers-singbox_start args)

  Answers-stop_running_singbox : Answers SingboxStopped (Singbox.stop_running_singbox env)
  unfolding Singbox.stop_running_singbox
  Answers-stop_running_singbox =
      Always->>= _ _
        λ t. Always-try t Answers-failure λ _. Always->>= _ _ Answers-judge_singbox_stop

  Answers-singbox_stop : Answers SingboxStopped (Singbox.singbox_stop env)
  unfolding Singbox.singbox_stop
  Answers-singbox_stop = already_stopped-SingboxStopped _ Answers-stop_running_singbox

  -- From a state of `Healthy any`, `singboxStop` returns, in a state of `Healthy any`:
  -- the returned message is `last_message`, and on success neither `singbox_running`
  -- nor `tun_running` is set.
  pub singbox_stop-outcome :
      (s : Bridge)
      → Healthy any s
      → Ensures no_stop
          (λ r t. Healthy any t × Says SingboxStopped r t)
          (Singbox.singbox_stop env s)
  singbox_stop-outcome =
      Always-Healthy no_stop (SingboxHandlers.Keeps-singbox_stop env) Answers-singbox_stop

  Answers-configure_singbox_fd : (fd : ℤ) → Answers PlaneRuns (Singbox.configure_singbox_fd env fd)
  unfolding Singbox.configure_singbox_fd
  Answers-configure_singbox_fd fd = Always->>= _ _ λ t.
      Always-try t Answers-tun_failed
        λ _. Always->>= _ _ λ u. Always-try u Answers-tun_failed λ _. Answers-give_singbox_fd fd

  Answers-singbox_set_tun_fd :
      (args : List ℕ) → Answers PlaneRuns (Singbox.singbox_set_tun_fd env args)
  unfolding Singbox.singbox_set_tun_fd
  Answers-singbox_set_tun_fd args = search (answers_rules, Answers-configure_singbox_fd) depth 20

  -- From a state of `Healthy any`, `singboxSetTunFd` returns, in a state of `Healthy any`:
  -- the returned message is `last_message`, and on success `tun_running` is set.
  pub singbox_set_tun_fd-outcome :
      (args : List ℕ) (s : Bridge)
      → Healthy any s
      → Ensures no_stop
          (λ r t. Healthy any t × Says PlaneRuns r t)
          (Singbox.singbox_set_tun_fd env args s)
  singbox_set_tun_fd-outcome args =
      Always-Healthy no_stop (SingboxHandlers.Keeps-singbox_set_tun_fd env args)
        (Answers-singbox_set_tun_fd args)
