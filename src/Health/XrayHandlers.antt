-- ===== src/Health/XrayHandlers.antt =====
-- The handlers of Xray.antt keep the invariant. Only `set_tun_fd` may crash.
use hey.Bridge.Keeps.{Allowed, null_call}
use hey.Prelude.{ℕ, List, refl, Option, none, some, ℤ}
use hey.Codec.Text.{Text}
use hey.Bridge.State.{Env, Arguments}
use hey.Bridge.Calls
use hey.Bridge.Monad.{crash}
use hey.Bridge.Keeps.{
  Keeps, Keeps->>=, Keeps->>, Keeps-pure, Keeps-try, Keeps-of_Triple, keeps_rules,
}
use hey.Loader.Xray as XrayLoader
use hey.Xray
use hey.Health.Invariant.{Known, any, xray, Healthy}
use hey.Health.Helpers.{Keeps-create_result, Keeps-make_fd_inheritable, Keeps-log, Keeps-emit}
use hey.Health.Loading.{Ends-load, load_xray_core-Loaded, Keeps-prepare_xray_asset_dir}
use hey.Health.Effects.{Ends-any, invoke_xray-Loaded}
use hey.Health.Setters.{
  Keeps-set_tun_running, Keeps-set_bytes, Keeps-set_message, Keeps-xray_stopped, Keeps-xray_running,
  Keeps-xray_failed, Keeps-tun_failed, Keeps-already_stopped,
}

module _ (env : Env) {C : Allowed} where
  Keeps-load_xray : Keeps C (Healthy any) (XrayLoader.load_xray env)
  unfolding XrayLoader.load_xray
  Keeps-load_xray = Keeps-of_Triple (
      Ends-load (load_xray_core-Loaded env)
        (λ e. Ends-any (Keeps->> (Keeps-set_message e) (Keeps->> (Keeps-log _ e) (Keeps-pure _))))
        (λ _. Ends-any (Keeps-pure _)))

  pub Keeps-validate_config :
      (args : List ℕ) → Keeps C (Healthy any) (Xray.validate_config env args)
  unfolding Xray.validate_config
  Keeps-validate_config args = search (keeps_rules, Keeps-load_xray, Keeps-create_result) depth 20

  Keeps-judge_start : (response : Text) → Keeps C (Healthy xray) (Xray.judge_start response)
  unfolding Xray.judge_start
  Keeps-judge_start response =
      search (keeps_rules, Keeps-xray_failed, Keeps-xray_running, Keeps-create_result) depth 20

  Keeps-start_loaded : (config : Text) → Keeps C (Healthy any) (Xray.start_loaded env config)
  unfolding Xray.start_loaded
  Keeps-start_loaded config = Keeps-of_Triple (
      Ends-load (load_xray_core-Loaded env) (λ e. Ends-any (Keeps-xray_failed e))
        (λ _.
          Ends-load (invoke_xray-Loaded env _ _) (λ e. Ends-any (Keeps-xray_failed e))
            (λ r. Ends-any (Keeps-judge_start r))))

  Keeps-run_xray :
      (config work_dir : Text) → Keeps C (Healthy any) (Xray.run_xray env config work_dir)
  unfolding Xray.run_xray
  Keeps-run_xray config work_dir =
      search
        (
          keeps_rules, Keeps-prepare_xray_asset_dir, Keeps-load_xray, Keeps-xray_failed,
          Keeps-start_loaded,
        )
        depth 20

  pub Keeps-start_xray : (args : List ℕ) → Keeps C (Healthy any) (Xray.start_xray env args)
  unfolding Xray.start_xray
  Keeps-start_xray args = search (keeps_rules, Keeps-create_result, Keeps-run_xray) depth 20

  Keeps-judge_stop : (response : Text) → Keeps C (Healthy xray) (Xray.judge_stop response)
  unfolding Xray.judge_stop
  Keeps-judge_stop response =
      search (keeps_rules, Keeps-xray_stopped, Keeps-set_tun_running, Keeps-create_result) depth 20

  Keeps-stop_running_xray : Keeps C (Healthy any) (Xray.stop_running_xray env)
  unfolding Xray.stop_running_xray
  Keeps-stop_running_xray = Keeps-of_Triple (
      Ends-load (load_xray_core-Loaded env) (λ e. Ends-any (Keeps-create_result _ e))
        (λ _.
          Ends-load (invoke_xray-Loaded env _ _) (λ e. Ends-any (Keeps-create_result _ e))
            (λ r. Ends-any (Keeps-judge_stop r))))

  pub Keeps-stop_xray : Keeps C (Healthy any) (Xray.stop_xray env)
  unfolding Xray.stop_xray
  Keeps-stop_xray = search (keeps_rules, Keeps-already_stopped, Keeps-stop_running_xray) depth 20

-- `SetTunFd`, which calls through a pointer that may be null.
module _ (env : Env) {C : Allowed} (crashes : C null_call) where
  Keeps-call_void :
      {k : Known} (f : Option ℕ) (args : Arguments) → Keeps C (Healthy k) (Calls.call_void f args)
  unfolding Calls.call_void crash
  Keeps-call_void none args = record { keeps = λ s h. crashes }
  Keeps-call_void (some f) args = Keeps-emit _ refl

  Keeps-give_fd : (fd : ℤ) → Keeps C (Healthy xray) (Xray.give_fd fd)
  unfolding Xray.give_fd
  Keeps-give_fd fd =
      search
        (keeps_rules, Keeps-set_bytes, Keeps-call_void, Keeps-set_tun_running, Keeps-create_result)
        depth 20

  Keeps-configure_fd : (fd : ℤ) → Keeps C (Healthy any) (Xray.configure_fd env fd)
  unfolding Xray.configure_fd
  Keeps-configure_fd fd = Keeps-of_Triple (
      Ends-load (load_xray_core-Loaded env) (λ e. Ends-any (Keeps-tun_failed e))
        (λ _. Ends-any (
          Keeps->>= (Keeps-make_fd_inheritable env fd)
            λ r. Keeps-try r Keeps-tun_failed (λ _. Keeps-give_fd fd))))

  pub Keeps-set_tun_fd : (args : List ℕ) → Keeps C (Healthy any) (Xray.set_tun_fd env args)
  unfolding Xray.set_tun_fd
  Keeps-set_tun_fd args = search (keeps_rules, Keeps-create_result, Keeps-configure_fd) depth 20
