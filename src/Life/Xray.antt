-- ===== src/Life/Xray.antt =====
-- The Xray handlers as steps of the life.
use hey.Prelude.{
  ℕ, ◌≡◌, refl, sym, ap, ◌∙◌, List, true, false, not, Option, none, some, ℤ, pos, ltb, leb, ltb_ℤ,
  length, is_empty, if◌then◌else◌,
}
use hey.Codec.Text.{Text, text}
use hey.Codec.Response
use hey.Bridge.State.{Env, Bridge, Arguments}
use hey.Bridge.Monad.{M, emit, crash}
use hey.Bridge.Calls
use hey.Bridge.Calls.{NapiResult}
use hey.Bridge.Keeps.{Keeps, anything, Keeps-gets}
use hey.Xray
use hey.Module
use hey.Module.{Method}
use hey.Frame.Steps
use hey.Frame.Loads
use hey.Life.{
  Life, life, Step, refused, validated, xray_already, xray_started, xray_idle, xray_stopped,
  xray_fd, xray_fd_lost,
}
use hey.Life.Moves.{
  life-IsFrame, life-IsLoud, Moves, Moves->>=, Moves->>, Moves-store, Moves-test, Moves-test_not,
  Moves-if, Moves-unless, Moves-try, Moves-result,
}

-- A handler takes the step of its method that its answer tells.
abbrev pub Turns : Method → Life → M NapiResult → Type 0
Turns m a h = Moves a (λ r b. Step m a r.ok b) h

-- A store of `false` where it is `false` already.
unset :
    (a : Life)
    → a.xray ≡ false
    → (s : Bridge) → life s ≡ a
    → life (record s { xray_running = false }) ≡ a
unset a off s e =
    ap (λ (l : Life). record l { xray = false }) e ∙ ap (λ b. record a { xray = b }) (sym off)

module _ {a : Life} where
  Turns-xray_failed :
      a.xray ≡ false
      → (message : Text) → Turns Module.start_xray_method a (Xray.xray_failed message)
  unfolding Xray.xray_failed Xray.set_xray_running
  Turns-xray_failed off message =
      Moves-store a _ (unset a off) (Moves-result false message (refused refl))

  Turns-judge_start :
      a.xray ≡ false
      → (response : Text) → Turns Module.start_xray_method a (Xray.judge_start response)
  unfolding Xray.judge_start Xray.set_xray_running
  Turns-judge_start off response =
      Moves-if (not (Response.invoke_success response (text "")).0) (Turns-xray_failed off _) (
        Moves-store (record a { xray = true }) _
          (λ s e. ap (λ (l : Life). record l { xray = true }) e)
          (Moves-result true _ (xray_started off)))

  Turns-judge_stop :
      a.xray ≡ true → (response : Text) → Turns Module.stop_xray_method a (Xray.judge_stop response)
  unfolding Xray.judge_stop Xray.set_xray_running Xray.set_tun_running
  Turns-judge_stop on response =
      Moves-if (not (Response.invoke_success response (text "")).0)
        (Moves-result false _ (refused refl))
        (Moves-store (record a { xray = false }) _
          (λ s e. ap (λ (l : Life). record l { xray = false }) e)
          (Moves-store (record a { xray = false; tun = false }) _
            (λ s e. ap (λ (l : Life). record l { tun = false }) e)
            (Moves-result true _ (xray_stopped on))))

  -- The data plane counts as gone where a core cannot be given its fd.
  pub Moves-tun_failed :
      {Q : NapiResult → Life → Type 0} (message : Text)
      → Q (record { ok = false; message = message }) (record a { tun = false })
      → Moves a Q (Xray.tun_failed message)
  unfolding Xray.tun_failed Xray.set_tun_running
  Moves-tun_failed message h =
      Moves-store (record a { tun = false }) _
        (λ s e. ap (λ (l : Life). record l { tun = false }) e) (Moves-result false message h)

  pub Moves-already_stopped :
      {Q : NapiResult → Life → Type 0} (message : Text)
      → Q (record { ok = true; message = message }) (record a { tun = false })
      → Moves a Q (Xray.already_stopped message)
  unfolding Xray.already_stopped Xray.set_tun_running
  Moves-already_stopped message h =
      Moves-store (record a { tun = false }) _
        (λ s e. ap (λ (l : Life). record l { tun = false }) e) (Moves-result true message h)

  pub Keeps-call_void :
      (f : Option ℕ) (args : Arguments) → Keeps anything (λ s. life s ≡ a) (Calls.call_void f args)
  unfolding Calls.call_void emit crash
  Keeps-call_void none args = record { keeps = λ s h. tt }
  Keeps-call_void (some f) args = record { keeps = λ s h. h }

  Turns-give_fd : a.xray ≡ false → (fd : ℤ) → Turns Module.set_tun_fd_method a (Xray.give_fd fd)
  unfolding Xray.give_fd Xray.set_tun_running
  Turns-give_fd off fd = Moves->> (Loads.Keeps-set_bytes (life-IsLoud a) _ _) (
      Moves->>= (Keeps-gets _) λ f. Moves->> (Keeps-call_void f _) (
        Moves-store (record a { tun = true }) _
          (λ s e. ap (λ (l : Life). record l { tun = true }) e)
          (Moves-result true _ (xray_fd off))))

  module _ (env : Env) where
    Turns-start_loaded :
        a.xray ≡ false
        → (config : Text) → Turns Module.start_xray_method a (Xray.start_loaded env config)
    unfolding Xray.start_loaded
    Turns-start_loaded off config = Moves->>= (Steps.Keeps-load_xray_core (life-IsFrame a) env) λ t.
        Moves-try t (Turns-xray_failed off) λ _.
          Moves->>= (Steps.Keeps-invoke_xray (life-IsFrame a) env _ _)
            λ i. Moves-try i (Turns-xray_failed off) (Turns-judge_start off)

    Turns-run_xray :
        a.xray ≡ false
        → (config work_dir : Text)
        → Turns Module.start_xray_method a (Xray.run_xray env config work_dir)
    unfolding Xray.run_xray
    Turns-run_xray off config work_dir =
        Moves->> (Steps.Keeps-prepare_xray_asset_dir (life-IsFrame a) _) (
          Moves->>= (Loads.Keeps-load_xray (life-IsLoud a) env) λ available.
            Moves->>= (Keeps-gets _) λ message.
              Moves-if (not available) (Turns-xray_failed off message)
                (Turns-start_loaded off config))

    pub Turns-start_xray :
        (args : List ℕ) → Turns Module.start_xray_method a (Xray.start_xray env args)
    unfolding Xray.start_xray
    Turns-start_xray args =
        let work_dir =
          if leb 2 (length args) then Calls.get_string_arg env (Calls.arg args 1) else text "" in
        Moves-if (ltb (length args) 1) (Moves-result false _ (refused refl)) (
          Moves-if (is_empty (Calls.get_string_arg env (Calls.arg args 0)))
            (Moves-result false _ (refused refl))
            (Moves-test (λ s. s.xray_running) (λ l. l.xray) (λ s. refl)
              (λ on. Moves-result true _ (xray_already on))
              λ off.
                Moves-if (is_empty work_dir) (Moves-result false _ (refused refl))
                  (Turns-run_xray off _ work_dir)))

    Turns-stop_running_xray :
        a.xray ≡ true → Turns Module.stop_xray_method a (Xray.stop_running_xray env)
    unfolding Xray.stop_running_xray
    Turns-stop_running_xray on = Moves->>= (Steps.Keeps-load_xray_core (life-IsFrame a) env) λ t.
        Moves-try t (λ e. Moves-result false e (refused refl))
          λ _.
            Moves->>= (Steps.Keeps-invoke_xray (life-IsFrame a) env _ _)
              λ i. Moves-try i (λ e. Moves-result false e (refused refl)) (Turns-judge_stop on)

    pub Turns-stop_xray : Turns Module.stop_xray_method a (Xray.stop_xray env)
    unfolding Xray.stop_xray
    Turns-stop_xray =
        Moves-test_not (λ s. s.xray_running) (λ l. l.xray) (λ s. refl)
          (λ off. Moves-already_stopped _ (xray_idle off)) Turns-stop_running_xray

    Turns-configure_fd :
        a.xray ≡ false
        → (fd : ℤ) → ltb_ℤ fd (pos 0) ≡ false
        → Turns Module.set_tun_fd_method a (Xray.configure_fd env fd)
    unfolding Xray.configure_fd
    Turns-configure_fd off fd h = Moves->>= (Steps.Keeps-load_xray_core (life-IsFrame a) env) λ t.
        Moves-try t (λ e. Moves-tun_failed e (xray_fd_lost off))
          λ _.
            Moves->>= (Loads.Keeps-make_fd_inheritable (life-IsFrame a) env fd h) λ i.
              Moves-try i (λ e. Moves-tun_failed e (xray_fd_lost off)) λ _. Turns-give_fd off fd

    pub Turns-set_tun_fd :
        (args : List ℕ) → Turns Module.set_tun_fd_method a (Xray.set_tun_fd env args)
    unfolding Xray.set_tun_fd
    Turns-set_tun_fd args =
        let fd = Calls.get_int_arg env (Calls.arg args 0) in
        Moves-if (ltb (length args) 1) (Moves-result false _ (refused refl)) (
          Moves-unless (ltb_ℤ fd (pos 0)) (Moves-result false _ (refused refl)) λ h.
            Moves-test (λ s. s.xray_running) (λ l. l.xray) (λ s. refl)
              (λ on. Moves-result false _ (refused refl)) λ off. Turns-configure_fd off fd h)

    pub Turns-validate_config :
        (args : List ℕ) → Turns Module.validate_config_method a (Xray.validate_config env args)
    unfolding Xray.validate_config
    Turns-validate_config args =
        Moves-if (ltb (length args) 1) (Moves-result false _ (refused refl)) (
          Moves-if (is_empty (Calls.get_string_arg env (Calls.arg args 0)))
            (Moves-result false _ (refused refl))
            (Moves-if (Xray.lacks_sections (Calls.get_string_arg env (Calls.arg args 0)))
              (Moves-result false _ (refused refl))
              (Moves->>= (Loads.Keeps-load_xray (life-IsLoud a) env) λ available.
                Moves->>= (Keeps-gets _) λ message.
                  Moves-if available (Moves-result true _ validated)
                    (Moves-result false _ (refused refl)))))
