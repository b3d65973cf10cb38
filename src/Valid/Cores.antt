-- ===== src/Valid/Cores.antt =====
-- The handlers of the two cores ask only what is valid.
use hey.Prelude.{
  ℕ, ◌≡◌, List, true, false, not, ℤ, pos, ltb_ℤ, ltb, length, is_empty, Option, none, some, arith,
}
use hey.Codec.Text.{Text}
use hey.Bridge.State.{Env, Trace, Arguments}
use hey.Bridge.Calls
use hey.Bridge.Keeps.{
  Keeps->>=, Keeps->>, Keeps-if, Keeps-unless, Keeps-try, Keeps-gets, keeps_rules,
}
use hey.Loader.Xray as Loader
use hey.Xray
use hey.Singbox
use hey.Frame.{valid_arguments}
use hey.Frame.Steps
use hey.Frame.Loads
use hey.Valid.Rules
use hey.Valid.Rules.{Admits, Closed, Closed-IsLoud, frame}

ruleset core_rules = (
  keeps_rules, Rules.Admits-xray, Rules.Admits-tun, Rules.Admits-singbox, Rules.Admits-result,
  Rules.Admits-bytes, Rules.Admits-failed, Rules.Admits-already,
)

module _ {P : ℕ → Trace → Type 0} (closed : Closed P) where
  Admits-call_void :
      (f : Option ℕ) (args : Arguments)
      → valid_arguments args ≡ true
      → Admits P (Calls.call_void f args)
  unfolding Calls.call_void
  Admits-call_void none args v = Steps.Keeps-crash (frame closed)
  Admits-call_void (some f) args v = Steps.Keeps-emit (frame closed) _ v

  Admits-xray_failed : (message : Text) → Admits P (Xray.xray_failed message)
  unfolding Xray.xray_failed
  Admits-xray_failed message = search (core_rules, closed) depth 20

  Admits-judge_start : (response : Text) → Admits P (Xray.judge_start response)
  unfolding Xray.judge_start
  Admits-judge_start response = search (core_rules, closed, Admits-xray_failed) depth 20

  Admits-judge_stop : (response : Text) → Admits P (Xray.judge_stop response)
  unfolding Xray.judge_stop
  Admits-judge_stop response = search (core_rules, closed) depth 20

  Admits-give_fd : (fd : ℤ) → ltb_ℤ fd (pos 0) ≡ false → Admits P (Xray.give_fd fd)
  unfolding Xray.give_fd
  Admits-give_fd fd h = Keeps->> ((Rules.Admits-bytes closed) _ _) (
      Keeps->>= (Keeps-gets _) λ f.
        Keeps->> (Admits-call_void f _ (ground arith))
          (Keeps->> ((Rules.Admits-tun closed) true) ((Rules.Admits-result closed) _ _)))

  Admits-singbox_failed : (message : Text) → Admits P (Singbox.singbox_failed message)
  unfolding Singbox.singbox_failed
  Admits-singbox_failed message = search (core_rules, closed) depth 20

  Admits-judge_singbox_start : (raw : Option Text) → Admits P (Singbox.judge_singbox_start raw)
  unfolding Singbox.judge_singbox_start
  Admits-judge_singbox_start none = Admits-singbox_failed _
  Admits-judge_singbox_start (some response) =
      search (core_rules, closed, Admits-singbox_failed) depth 20

  Admits-judge_singbox_stop : (raw : Option Text) → Admits P (Singbox.judge_singbox_stop raw)
  unfolding Singbox.judge_singbox_stop
  Admits-judge_singbox_stop none = (Rules.Admits-result closed) _ _
  Admits-judge_singbox_stop (some response) = search (core_rules, closed) depth 20

  Admits-give_singbox_fd :
      (fd : ℤ) → ltb_ℤ fd (pos 0) ≡ false → Admits P (Singbox.give_singbox_fd fd)
  unfolding Singbox.give_singbox_fd
  Admits-give_singbox_fd fd h = Keeps->> ((Rules.Admits-bytes closed) _ _) (
      Keeps->>= (Keeps-gets _) λ f.
        Keeps->> (Admits-call_void f _ (ground arith))
          (Keeps->> ((Rules.Admits-tun closed) true) ((Rules.Admits-result closed) _ _)))

  module _ (env : Env) where
    Admits-load_xray : Admits P (Loader.load_xray env)
    Admits-load_xray = Loads.Keeps-load_xray (Closed-IsLoud closed) env

    pub Admits-validate_config : (args : List ℕ) → Admits P (Xray.validate_config env args)
    unfolding Xray.validate_config
    Admits-validate_config args =
        let config = Calls.get_string_arg env (Calls.arg args 0) in
        Keeps-if (ltb (length args) 1) ((Rules.Admits-result closed) _ _) (
          Keeps-if (is_empty config) ((Rules.Admits-result closed) _ _) (
            Keeps-if (Xray.lacks_sections config) ((Rules.Admits-result closed) _ _) (
              Keeps->>= Admits-load_xray λ loaded. Keeps->>= (Keeps-gets _) λ message.
                Keeps-if loaded ((Rules.Admits-result closed) _ _)
                  ((Rules.Admits-result closed) _ _))))

    Admits-configure_fd : (fd : ℤ) → ltb_ℤ fd (pos 0) ≡ false → Admits P (Xray.configure_fd env fd)
    unfolding Xray.configure_fd
    Admits-configure_fd fd h = Keeps->>= (Steps.Keeps-load_xray_core (frame closed) env) λ t.
        Keeps-try t (Rules.Admits-failed closed) λ _.
          Keeps->>= (Loads.Keeps-make_fd_inheritable (frame closed) env fd h)
            λ i. Keeps-try i (Rules.Admits-failed closed) λ _. Admits-give_fd fd h

    pub Admits-set_tun_fd : (args : List ℕ) → Admits P (Xray.set_tun_fd env args)
    unfolding Xray.set_tun_fd
    Admits-set_tun_fd args =
        let fd = Calls.get_int_arg env (Calls.arg args 0) in
        Keeps-if (ltb (length args) 1) ((Rules.Admits-result closed) _ _) (
          Keeps-unless (ltb_ℤ fd (pos 0)) ((Rules.Admits-result closed) _ _) λ h.
            Keeps->>= (Keeps-gets _) λ running.
              Keeps-if running ((Rules.Admits-result closed) _ _) (Admits-configure_fd fd h))

    Admits-run_xray : (config work_dir : Text) → Admits P (Xray.run_xray env config work_dir)
    unfolding Xray.run_xray Xray.start_loaded
    Admits-run_xray config work_dir =
        Keeps->> (Steps.Keeps-prepare_xray_asset_dir (frame closed) _) (
          Keeps->>= Admits-load_xray λ available. Keeps->>= (Keeps-gets _) λ message.
            Keeps-if (not available) (Admits-xray_failed _) (
              Keeps->>= (Steps.Keeps-load_xray_core (frame closed) env) λ t.
                Keeps-try t Admits-xray_failed λ _.
                  Keeps->>= (Steps.Keeps-invoke_xray (frame closed) env _ _)
                    λ i. Keeps-try i Admits-xray_failed Admits-judge_start))

    pub Admits-start_xray : (args : List ℕ) → Admits P (Xray.start_xray env args)
    unfolding Xray.start_xray
    Admits-start_xray args = search (core_rules, closed, Admits-run_xray) depth 20

    pub Admits-stop_xray : Admits P (Xray.stop_xray env)
    unfolding Xray.stop_xray Xray.stop_running_xray
    Admits-stop_xray = Keeps->>= (Keeps-gets _) λ running.
        Keeps-if (not running) ((Rules.Admits-already closed) _) (
          Keeps->>= (Steps.Keeps-load_xray_core (frame closed) env) λ t.
            Keeps-try t ((Rules.Admits-result closed) _) λ _.
              Keeps->>= (Steps.Keeps-invoke_xray (frame closed) env _ _)
                λ i. Keeps-try i ((Rules.Admits-result closed) _) Admits-judge_stop)

    Admits-configure_singbox_fd :
        (fd : ℤ) → ltb_ℤ fd (pos 0) ≡ false → Admits P (Singbox.configure_singbox_fd env fd)
    unfolding Singbox.configure_singbox_fd
    Admits-configure_singbox_fd fd h =
        Keeps->>= (Loads.Keeps-load_singbox_core (frame closed) env) λ t.
          Keeps-try t (Rules.Admits-failed closed) λ _.
            Keeps->>= (Loads.Keeps-make_fd_inheritable (frame closed) env fd h)
              λ i. Keeps-try i (Rules.Admits-failed closed) λ _. Admits-give_singbox_fd fd h

    pub Admits-singbox_set_tun_fd : (args : List ℕ) → Admits P (Singbox.singbox_set_tun_fd env args)
    unfolding Singbox.singbox_set_tun_fd
    Admits-singbox_set_tun_fd args =
        let fd = Calls.get_int_arg env (Calls.arg args 0) in
        Keeps-if (ltb (length args) 1) ((Rules.Admits-result closed) _ _) (
          Keeps-unless (ltb_ℤ fd (pos 0)) ((Rules.Admits-result closed) _ _) λ h.
            Keeps->>= (Keeps-gets _) λ running.
              Keeps-if running ((Rules.Admits-result closed) _ _)
                (Admits-configure_singbox_fd fd h))

    Admits-run_singbox :
        (config work_dir : Text) → Admits P (Singbox.run_singbox env config work_dir)
    unfolding Singbox.run_singbox
    Admits-run_singbox config work_dir =
        Keeps->>= (Loads.Keeps-load_singbox_core (frame closed) env) λ t.
          Keeps-try t Admits-singbox_failed
            λ _. Keeps->>= (Loads.Keeps-call_start (frame closed) env _) Admits-judge_singbox_start

    pub Admits-singbox_start : (args : List ℕ) → Admits P (Singbox.singbox_start env args)
    unfolding Singbox.singbox_start
    Admits-singbox_start args = search (core_rules, closed, Admits-run_singbox) depth 20

    pub Admits-singbox_stop : Admits P (Singbox.singbox_stop env)
    unfolding Singbox.singbox_stop Singbox.stop_running_singbox
    Admits-singbox_stop = Keeps->>= (Keeps-gets _) λ running.
        Keeps-if (not running) ((Rules.Admits-already closed) _) (
          Keeps->>= (Loads.Keeps-load_singbox_core (frame closed) env) λ t.
            Keeps-try t ((Rules.Admits-result closed) _)
              λ _. Keeps->>= (Loads.Keeps-call_stop (frame closed) env) Admits-judge_singbox_stop)
