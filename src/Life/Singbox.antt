-- ===== src/Life/Singbox.antt =====
-- The sing-box handlers as steps of the life.
use hey.Prelude.{
  ℕ, ◌≡◌, refl, sym, ap, ◌∙◌, List, true, false, not, Option, none, some, ℤ, pos, ltb, leb, ltb_ℤ,
  length, is_empty, if◌then◌else◌,
}
use hey.Codec.Text.{Text, text}
use hey.Codec.Response
use hey.Bridge.State.{Env, Bridge}
use hey.Bridge.Calls
use hey.Bridge.Keeps.{Keeps-gets}
use hey.Xray as Handlers
use hey.Singbox
use hey.Module
use hey.Frame.Loads
use hey.Life.{
  Life, life, refused, singbox_already, singbox_started, singbox_idle, singbox_stopped, singbox_fd,
  singbox_fd_lost,
}
use hey.Life.Moves.{
  life-IsFrame, life-IsLoud, Moves->>=, Moves->>, Moves-store, Moves-test, Moves-test_not, Moves-if,
  Moves-unless, Moves-try, Moves-result,
}
use hey.Life.Xray.{Turns, Moves-tun_failed, Moves-already_stopped, Keeps-call_void}

unset :
    (a : Life)
    → a.singbox ≡ false
    → (s : Bridge) → life s ≡ a
    → life (record s { singbox_running = false }) ≡ a
unset a off s e =
    ap (λ (l : Life). record l { singbox = false }) e ∙ ap (λ b. record a { singbox = b }) (sym off)

module _ {a : Life} where
  Turns-singbox_failed :
      a.singbox ≡ false
      → (message : Text) → Turns Module.singbox_start_method a (Singbox.singbox_failed message)
  unfolding Singbox.singbox_failed Singbox.set_singbox_running
  Turns-singbox_failed off message =
      Moves-store a _ (unset a off) (Moves-result false message (refused refl))

  Turns-judge_start :
      a.singbox ≡ false
      → (raw : Option Text) → Turns Module.singbox_start_method a (Singbox.judge_singbox_start raw)
  unfolding Singbox.judge_singbox_start Singbox.set_singbox_running
  Turns-judge_start off none = Turns-singbox_failed off _
  Turns-judge_start off (some response) =
      Moves-if (not (Response.response_ok response).0) (Turns-singbox_failed off _) (
        Moves-store (record a { singbox = true }) _
          (λ s e. ap (λ (l : Life). record l { singbox = true }) e)
          (Moves-result true _ (singbox_started off)))

  Turns-judge_stop :
      a.singbox ≡ true
      → (raw : Option Text) → Turns Module.singbox_stop_method a (Singbox.judge_singbox_stop raw)
  unfolding Singbox.judge_singbox_stop Singbox.set_singbox_running Handlers.set_tun_running
  Turns-judge_stop on none = Moves-result false _ (refused refl)
  Turns-judge_stop on (some response) =
      Moves-if (not (Response.response_ok response).0) (Moves-result false _ (refused refl)) (
        Moves-store (record a { singbox = false }) _
          (λ s e. ap (λ (l : Life). record l { singbox = false }) e)
          (Moves-store (record a { singbox = false; tun = false }) _
            (λ s e. ap (λ (l : Life). record l { tun = false }) e)
            (Moves-result true _ (singbox_stopped on))))

  Turns-give_fd :
      a.singbox ≡ false
      → (fd : ℤ) → Turns Module.singbox_set_tun_fd_method a (Singbox.give_singbox_fd fd)
  unfolding Singbox.give_singbox_fd Handlers.set_tun_running
  Turns-give_fd off fd = Moves->> (Loads.Keeps-set_bytes (life-IsLoud a) _ _) (
      Moves->>= (Keeps-gets _) λ f. Moves->> (Keeps-call_void f _) (
        Moves-store (record a { tun = true }) _
          (λ s e. ap (λ (l : Life). record l { tun = true }) e)
          (Moves-result true _ (singbox_fd off))))

  module _ (env : Env) where
    Turns-run_singbox :
        a.singbox ≡ false
        → (config work_dir : Text)
        → Turns Module.singbox_start_method a (Singbox.run_singbox env config work_dir)
    unfolding Singbox.run_singbox
    Turns-run_singbox off config work_dir =
        Moves->>= (Loads.Keeps-load_singbox_core (life-IsFrame a) env) λ t.
          Moves-try t (Turns-singbox_failed off)
            λ _. Moves->>= (Loads.Keeps-call_start (life-IsFrame a) env _) (Turns-judge_start off)

    pub Turns-singbox_start :
        (args : List ℕ) → Turns Module.singbox_start_method a (Singbox.singbox_start env args)
    unfolding Singbox.singbox_start
    Turns-singbox_start args =
        let work_dir =
          if leb 2 (length args) then Calls.get_string_arg env (Calls.arg args 1) else text "" in
        Moves-if (ltb (length args) 1) (Moves-result false _ (refused refl)) (
          Moves-if (is_empty (Calls.get_string_arg env (Calls.arg args 0)))
            (Moves-result false _ (refused refl))
            (Moves-test (λ s. s.singbox_running) (λ l. l.singbox) (λ s. refl)
              (λ on. Moves-result true _ (singbox_already on))
              λ off.
                Moves-if (is_empty work_dir) (Moves-result false _ (refused refl))
                  (Turns-run_singbox off _ work_dir)))

    Turns-stop_running_singbox :
        a.singbox ≡ true → Turns Module.singbox_stop_method a (Singbox.stop_running_singbox env)
    unfolding Singbox.stop_running_singbox
    Turns-stop_running_singbox on =
        Moves->>= (Loads.Keeps-load_singbox_core (life-IsFrame a) env) λ t.
          Moves-try t (λ e. Moves-result false e (refused refl))
            λ _. Moves->>= (Loads.Keeps-call_stop (life-IsFrame a) env) (Turns-judge_stop on)

    pub Turns-singbox_stop : Turns Module.singbox_stop_method a (Singbox.singbox_stop env)
    unfolding Singbox.singbox_stop
    Turns-singbox_stop =
        Moves-test_not (λ s. s.singbox_running) (λ l. l.singbox) (λ s. refl)
          (λ off. Moves-already_stopped _ (singbox_idle off)) Turns-stop_running_singbox

    Turns-configure_fd :
        a.singbox ≡ false
        → (fd : ℤ) → ltb_ℤ fd (pos 0) ≡ false
        → Turns Module.singbox_set_tun_fd_method a (Singbox.configure_singbox_fd env fd)
    unfolding Singbox.configure_singbox_fd
    Turns-configure_fd off fd h =
        Moves->>= (Loads.Keeps-load_singbox_core (life-IsFrame a) env) λ t.
          Moves-try t (λ e. Moves-tun_failed e (singbox_fd_lost off))
            λ _. Moves->>= (Loads.Keeps-make_fd_inheritable (life-IsFrame a) env fd h) λ i.
              Moves-try i (λ e. Moves-tun_failed e (singbox_fd_lost off)) λ _. Turns-give_fd off fd

    pub Turns-singbox_set_tun_fd :
        (args : List ℕ)
        → Turns Module.singbox_set_tun_fd_method a (Singbox.singbox_set_tun_fd env args)
    unfolding Singbox.singbox_set_tun_fd
    Turns-singbox_set_tun_fd args =
        let fd = Calls.get_int_arg env (Calls.arg args 0) in
        Moves-if (ltb (length args) 1) (Moves-result false _ (refused refl)) (
          Moves-unless (ltb_ℤ fd (pos 0)) (Moves-result false _ (refused refl)) λ h.
            Moves-test (λ s. s.singbox_running) (λ l. l.singbox) (λ s. refl)
              (λ on. Moves-result false _ (refused refl)) λ off. Turns-configure_fd off fd h)
