-- ===== src/Behaviour/Outcomes/Plane.antt =====
-- What the answers of `startTun2Socks` and `startHevTun` say of the globals afterwards.
use hey.Bridge.Keeps.{no_crash, no_stop}
use hey.Prelude.{ℕ, List, true, if◌then◌else◌, arith, ℤ}
use hey.Codec.Text.{Text}
use hey.Bridge.State.{Env, Bridge}
use hey.Bridge.Monad.{M, pure, gets, modify, emit, ◌>>=◌, ◌>>◌}
use hey.Bridge.Calls
use hey.Bridge.Calls.{NapiResult}
use hey.Bridge.Keeps.{Ensures}
use hey.Xray
use hey.Tun
use hey.Health.Invariant.{any, Healthy}
use hey.Health.TunHandlers
use hey.Behaviour.Answers.{
  Says, Answers, Always->>=, Always->>, Always-if, Always-try, Answers-failure, Answers-load_failed,
  answers_rules, Answers-set, success_here, Always-Healthy,
}
use hey.Behaviour.Outcomes.{PlaneRuns}

Answers-plane_already :
    (message : Text) {n : M NapiResult}
    → Answers PlaneRuns n
    → Answers PlaneRuns
        (gets (λ s. s.tun_running) >>= λ b. if b then Calls.create_result true message else n)
Answers-plane_already message k =
    Answers-set (λ s. s.tun_running) _ _ (success_here PlaneRuns message) k

plane_starts :
    (engine : ℕ) (message : Text)
    → Answers PlaneRuns (
        Xray.set_tun_running true
        >> (Tun.set_tun_engine engine >> Calls.create_result true message))
unfolding Xray.set_tun_running Tun.set_tun_engine modify ◌>>=◌ ◌>>◌ Calls.create_result Calls.log
    emit pure
plane_starts engine message = record { run = λ s. ground arith }

module _ (env : Env) where
  Answers-launch_gvisor :
      (fd : ℤ) (host : Text) (port mtu : ℤ)
      → Answers PlaneRuns (Tun.launch_gvisor env fd host port mtu)
  unfolding Tun.launch_gvisor
  Answers-launch_gvisor fd host port mtu =
      Always->>= _ _ λ _. Always->>= _ _ λ n. Always-if _ (Answers-failure _) (plane_starts _ _)

  Answers-run_tun2socks :
      (fd : ℤ) (host : Text) (port mtu : ℤ)
      → Answers PlaneRuns (Tun.run_tun2socks env fd host port mtu)
  unfolding Tun.run_tun2socks
  Answers-run_tun2socks fd host port mtu = Always->> _ _ (
      Always->>= _ _ λ t. Always-try t Answers-load_failed λ _.
        Always->>= _ _
          λ u. Always-try u Answers-failure λ _. Answers-launch_gvisor fd host port mtu)

  Answers-start_tun2socks : (args : List ℕ) → Answers PlaneRuns (Tun.start_tun2socks env args)
  unfolding Tun.start_tun2socks
  Answers-start_tun2socks args =
      search (answers_rules, Answers-plane_already, Answers-run_tun2socks) depth 20

  -- From a state of `Healthy any`, `startTun2Socks` returns, in a state of `Healthy any`:
  -- the returned message is `last_message`, and on success `tun_running` is set.
  pub start_tun2socks-outcome :
      (args : List ℕ) (s : Bridge)
      → Healthy any s
      → Ensures no_stop (λ r t. Healthy any t × Says PlaneRuns r t) (Tun.start_tun2socks env args s)
  start_tun2socks-outcome args =
      Always-Healthy no_stop (TunHandlers.Keeps-start_tun2socks env args)
        (Answers-start_tun2socks args)

  Answers-launch_hev : (config : Text) (fd : ℤ) → Answers PlaneRuns (Tun.launch_hev env config fd)
  unfolding Tun.launch_hev
  Answers-launch_hev config fd =
      Always->> _ _ (Always->>= _ _ λ _. Always->> _ _ (plane_starts _ _))

  Answers-run_hev : (config : Text) (fd : ℤ) → Answers PlaneRuns (Tun.run_hev env config fd)
  unfolding Tun.run_hev
  Answers-run_hev config fd = Always->> _ _ (
      Always->>= _ _ λ t.
        Always-try t Answers-load_failed
          λ _. Always->>= _ _ λ u. Always-try u Answers-failure λ _. Answers-launch_hev config fd)

  Answers-start_hev_tun : (args : List ℕ) → Answers PlaneRuns (Tun.start_hev_tun env args)
  unfolding Tun.start_hev_tun
  Answers-start_hev_tun args =
      search (answers_rules, Answers-plane_already, Answers-run_hev) depth 20

  -- From a state of `Healthy any`, `startHevTun` does not crash. Where it returns, `Healthy any` holds
  -- again, the returned message is `last_message`, and on success `tun_running` is set.
  pub start_hev_tun-outcome :
      (args : List ℕ) (s : Bridge)
      → Healthy any s
      → Ensures no_crash (λ r t. Healthy any t × Says PlaneRuns r t) (Tun.start_hev_tun env args s)
  start_hev_tun-outcome args =
      Always-Healthy no_crash (TunHandlers.Keeps-start_hev_tun env (λ t e. tt) args)
        (Answers-start_hev_tun args)
