-- ===== src/Health/SingboxHandlers.antt =====
-- The handlers of Singbox.antt keep the invariant, and none of them crashes.
use hey.Bridge.Keeps.{Allowed}
use hey.Prelude.{ℕ, List, ◌≡◌, refl, Option, none, some, ℤ, arith}
use hey.Codec.Text.{Text}
use hey.Bridge.State.{Env, Bridge}
use hey.Bridge.Calls
use hey.Bridge.Monad.{gets, modify, pure, emit, ask, ◌>>=◌, ◌>>◌}
use hey.Bridge.Keeps.{
  Ensures, Keeps, Keeps->>=, Keeps-option, Keeps-try, Keeps-of_Triple, keeps_rules,
}
use hey.Singbox
use hey.Xray
use hey.Health.Invariant.{any, singbox, Healthy}
use hey.Health.Helpers.{
  Keeps-create_result, Keeps-create_result_quiet, Keeps-make_fd_inheritable, Keeps-dlsym,
  Keeps-dlerror,
}
use hey.Health.Loading.{Ends-load, load_singbox_core-Loaded, Keeps-open_singbox}
use hey.Health.Effects.{Ends-any, Keeps-report_call}
use hey.Health.Setters.{
  Keeps-set_tun_running, Keeps-singbox_stopped, Keeps-singbox_running, Keeps-singbox_failed,
  Keeps-tun_failed, Keeps-already_stopped,
}

-- The calls into the loaded core: through no null pointer, and each answer is freed.
call_start_at :
    (env : Env) (C : Allowed) (start : Option ℕ) (request : Text) (s : Bridge)
    → s.singbox.start ≡ start
    → Healthy singbox s
    → Ensures C (λ _. Healthy singbox) (Singbox.call_start env request s)
unfolding Singbox.call_start Singbox.call_and_free Calls.call_string Calls.std_free gets emit ask
    pure ◌>>=◌ ◌>>◌
call_start_at env C (some f) request s e h = ground arith
call_start_at env C none request s e h = let (a, b, c) = h.singbox_symbols h.present in cc

call_stop_at :
    (env : Env) (C : Allowed) (stop : Option ℕ) (s : Bridge)
    → s.singbox.stop ≡ stop
    → Healthy singbox s
    → Ensures C (λ _. Healthy singbox) (Singbox.call_stop env s)
unfolding Singbox.call_stop Singbox.call_and_free Calls.call_string Calls.std_free gets emit ask
    pure ◌>>=◌ ◌>>◌
call_stop_at env C (some f) s e h = ground arith
call_stop_at env C none s e h = let (a, b, c) = h.singbox_symbols h.present in cc

give_fd_at :
    (C : Allowed) (f : Option ℕ) (fd : ℤ) (s : Bridge)
    → s.singbox.set_tun_fd ≡ f
    → Healthy singbox s
    → Ensures C (λ _. Healthy singbox) (Singbox.give_singbox_fd fd s)
unfolding Singbox.give_singbox_fd Xray.set_bytes Xray.set_tun_running Calls.call_void
    Calls.create_result Calls.log gets modify emit pure ◌>>=◌ ◌>>◌
give_fd_at C (some f) fd s e h = ground arith
give_fd_at C none fd s e h = let (a, b, c) = h.singbox_symbols h.present in cc

module _ (env : Env) {C : Allowed} where
  pub Keeps-singbox_probe : Keeps C (Healthy any) (Singbox.singbox_probe env)
  unfolding Singbox.singbox_probe
  Keeps-singbox_probe = Keeps->>= (Keeps-open_singbox env) λ r.
      Keeps-try r (λ e. Keeps-create_result_quiet _ e)
        (λ h.
          search (keeps_rules, Keeps-dlerror env, Keeps-dlsym env, Keeps-create_result_quiet) depth
            20)

  pub Keeps-singbox_version : Keeps C (Healthy any) (Singbox.singbox_version env)
  unfolding Singbox.singbox_version
  Keeps-singbox_version = Keeps->>= (Keeps-open_singbox env) λ r.
      Keeps-try r (λ e. Keeps-create_result_quiet _ e)
        (λ h. Keeps->>= (Keeps-dlerror env) λ _.
          Keeps->>= (Keeps-dlsym env _ _)
            λ v. Keeps-option v (Keeps-create_result_quiet _ _) (λ f. Keeps-report_call env f _ _))

  Keeps-judge_start :
      (raw : Option Text) → Keeps C (Healthy singbox) (Singbox.judge_singbox_start raw)
  unfolding Singbox.judge_singbox_start
  Keeps-judge_start none = Keeps-singbox_failed _
  Keeps-judge_start (some response) =
      search (keeps_rules, Keeps-singbox_failed, Keeps-singbox_running, Keeps-create_result) depth
        20

  Keeps-judge_stop :
      (raw : Option Text) → Keeps C (Healthy singbox) (Singbox.judge_singbox_stop raw)
  unfolding Singbox.judge_singbox_stop
  Keeps-judge_stop none = Keeps-create_result _ _
  Keeps-judge_stop (some response) =
      search (keeps_rules, Keeps-singbox_stopped, Keeps-set_tun_running, Keeps-create_result) depth
        20

  Keeps-run_singbox :
      (config work_dir : Text) → Keeps C (Healthy any) (Singbox.run_singbox env config work_dir)
  unfolding Singbox.run_singbox
  Keeps-run_singbox config work_dir = Keeps-of_Triple (
      Ends-load (load_singbox_core-Loaded env) (λ e. Ends-any (Keeps-singbox_failed e))
        (λ _. Ends-any (
          Keeps->>= (record { keeps = λ s h. call_start_at env C _ _ s refl h })
            Keeps-judge_start)))

  pub Keeps-singbox_start : (args : List ℕ) → Keeps C (Healthy any) (Singbox.singbox_start env args)
  unfolding Singbox.singbox_start
  Keeps-singbox_start args = search (keeps_rules, Keeps-create_result, Keeps-run_singbox) depth 20

  Keeps-stop_running : Keeps C (Healthy any) (Singbox.stop_running_singbox env)
  unfolding Singbox.stop_running_singbox
  Keeps-stop_running = Keeps-of_Triple (
      Ends-load (load_singbox_core-Loaded env) (λ e. Ends-any (Keeps-create_result _ e))
        (λ _.
          Ends-any
            (Keeps->>= (record { keeps = λ s h. call_stop_at env C _ s refl h }) Keeps-judge_stop)))

  pub Keeps-singbox_stop : Keeps C (Healthy any) (Singbox.singbox_stop env)
  unfolding Singbox.singbox_stop
  Keeps-singbox_stop = search (keeps_rules, Keeps-already_stopped, Keeps-stop_running) depth 20

  Keeps-configure_fd : (fd : ℤ) → Keeps C (Healthy any) (Singbox.configure_singbox_fd env fd)
  unfolding Singbox.configure_singbox_fd
  Keeps-configure_fd fd = Keeps-of_Triple (
      Ends-load (load_singbox_core-Loaded env) (λ e. Ends-any (Keeps-tun_failed e))
        (λ _. Ends-any (
          Keeps->>= (Keeps-make_fd_inheritable env fd) λ r.
            Keeps-try r Keeps-tun_failed
              (λ _. record { keeps = λ s h. give_fd_at C _ fd s refl h }))))

  pub Keeps-singbox_set_tun_fd :
      (args : List ℕ) → Keeps C (Healthy any) (Singbox.singbox_set_tun_fd env args)
  unfolding Singbox.singbox_set_tun_fd
  Keeps-singbox_set_tun_fd args =
      search (keeps_rules, Keeps-create_result, Keeps-configure_fd) depth 20
