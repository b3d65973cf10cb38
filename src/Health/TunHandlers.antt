-- ===== src/Health/TunHandlers.antt =====
-- The handlers of Tun.antt and Ping.antt keep the invariant, and none of them crashes.
use hey.Bridge.Keeps.{Allowed, Ensures}
use hey.Bridge.State.{Event, Bridge}
use hey.Bridge.Monad.{gets, emit, block, ◌>>=◌, ◌>>◌}
use hey.Prelude.{true, false, not, ◌≡◌, if◌then◌else◌, ◌⊎◌, inl, inr, Bool-cases}
use hey.Loader.Engines
use hey.Health.Invariant.{Joins}
use hey.Prelude.{ℕ, List, refl, Bool, Option, none, some, ℤ, arith}
use hey.Codec.Text.{Text}
use hey.Bridge.State.{Env, Arguments}
use hey.Bridge.Monad.{modify}
use hey.Bridge.Keeps.{
  Keeps, Keeps->>=, Keeps->>, Keeps-gets, Keeps-symbol, Keeps-if, Keeps-pure, Keeps-try,
  Keeps-of_Triple, keeps_rules,
}
use hey.Tun
use hey.Ping
use hey.Health.Invariant.{Known, any, gvisor, hev, Healthy}
use hey.Health.Helpers.{
  Keeps-create_result, Keeps-make_fd_inheritable, Keeps-emit, Keeps-ask, Keeps-log,
  Keeps-write_text_file,
}
use hey.Health.Loading.{
  Ends-load, load_tun2socks_core-Loaded, load_hev_core-Loaded, Keeps-prepare_xray_asset_dir,
}
use hey.Health.Effects.{Ends-any, invoke_xray-Loaded}
use hey.Health.Setters.{
  Keeps-set_tun_running, Keeps-set_bytes, Keeps-set_thread, Keeps-engine_none, Keeps-engine_gvisor,
  Keeps-engine_hev, Keeps-load_failed,
}

module _ (env : Env) {C : Allowed} where
  -- The wait for the thread: it ends as the environment says, or else is allowed not to.
  joined :
      {k : Known}
      → Keeps C
          (Healthy k)
          (emit Event.thread_joined >> Engines.set_hev (λ c. record c { thread = false }))
  joined = search (keeps_rules, Keeps-emit, Keeps-set_thread) depth 20

  waited :
      {k : Known}
      → Joins env C
      → Keeps C (Healthy k) (
          gets (λ s. env.hev_main_returns s.trace) >>= λ returns.
          if not returns
          then block
          else (emit Event.thread_joined >> Engines.set_hev (λ c. record c { thread = false })))
  unfolding gets block ◌>>=◌
  waited {k} j = record { keeps = λ s h. at s h (Bool-cases (env.hev_main_returns s.trace)) }
    where
      at :
          (s : Bridge)
          → Healthy k s
          → (env.hev_main_returns s.trace ≡ true) ⊎ (env.hev_main_returns s.trace ≡ false)
          → Ensures C
              (λ _ t. Healthy k t)
              ((gets (λ s. env.hev_main_returns s.trace) >>= λ returns.
                  if not returns
                  then block
                  else (emit Event.thread_joined
                      >> Engines.set_hev (λ c. record c { thread = false })))
                s)
      at s h (inl e) = rw e (joined.keeps s h)
      at s h (inr e) = rw e (j s.trace e)

  Keeps-join_hev_thread : {k : Known} → Joins env C → Keeps C (Healthy k) (Tun.join_hev_thread env)
  unfolding Tun.join_hev_thread
  Keeps-join_hev_thread j = Keeps->>= (Keeps-gets _) λ b. Keeps-if (not b) (Keeps-pure _) (waited j)

  Keeps-call_status :
      {k : Known} (f : ℕ) (args : Arguments)
      → Keeps C (Healthy k) (Tun.call_status env (some f) args)
  unfolding Tun.call_status
  Keeps-call_status f args = Keeps-ask _ _ (λ _. refl)

  Keeps-launch_gvisor :
      (fd : ℤ) (host : Text) (port mtu : ℤ)
      → Keeps C (Healthy gvisor) (Tun.launch_gvisor env fd host port mtu)
  unfolding Tun.launch_gvisor
  Keeps-launch_gvisor fd host port mtu =
      Keeps-symbol _ _ (λ s h. (h.tun2socks_symbols h.present).0)
        λ p.
          search
            (
              keeps_rules, Keeps-call_status, Keeps-create_result, Keeps-set_tun_running,
              Keeps-engine_gvisor,
            )
            depth 20

  Keeps-run_tun2socks :
      (fd : ℤ) (host : Text) (port mtu : ℤ)
      → Keeps C (Healthy any) (Tun.run_tun2socks env fd host port mtu)
  unfolding Tun.run_tun2socks
  Keeps-run_tun2socks fd host port mtu = Keeps->> (Keeps-set_bytes _ _) (
      Keeps-of_Triple (
        Ends-load (load_tun2socks_core-Loaded env) (λ e. Ends-any (Keeps-load_failed e))
          (λ _. Ends-any (
            Keeps->>= (Keeps-make_fd_inheritable env fd) λ r.
              Keeps-try r (λ e. Keeps-create_result _ e)
                (λ _. Keeps-launch_gvisor fd host port mtu)))))

  pub Keeps-start_tun2socks : (args : List ℕ) → Keeps C (Healthy any) (Tun.start_tun2socks env args)
  unfolding Tun.start_tun2socks
  Keeps-start_tun2socks args =
      search (keeps_rules, Keeps-create_result, Keeps-run_tun2socks) depth 20

  Keeps-start_hev_thread :
      {k : Known} (f : ℕ) (config : Text) (fd : ℤ)
      → Keeps C (Healthy k) (Tun.start_hev_thread (some f) config fd)
  unfolding Tun.start_hev_thread
  Keeps-start_hev_thread f config fd = search (keeps_rules, Keeps-emit, Keeps-set_thread)

  Keeps-launch_hev :
      Joins env C → (config : Text) (fd : ℤ) → Keeps C (Healthy hev) (Tun.launch_hev env config fd)
  unfolding Tun.launch_hev
  Keeps-launch_hev j config fd = Keeps->> (Keeps-join_hev_thread j) (
      Keeps-symbol _ _ (λ s h. (h.hev_symbols h.present).0)
        λ p.
          search
            (
              keeps_rules, Keeps-start_hev_thread, Keeps-create_result, Keeps-set_tun_running,
              Keeps-engine_hev,
            )
            depth 20)

  Keeps-run_hev :
      Joins env C → (config : Text) (fd : ℤ) → Keeps C (Healthy any) (Tun.run_hev env config fd)
  unfolding Tun.run_hev
  Keeps-run_hev j config fd = Keeps->> (Keeps-set_bytes _ _) (
      Keeps-of_Triple (
        Ends-load (load_hev_core-Loaded env) (λ e. Ends-any (Keeps-load_failed e))
          (λ _. Ends-any (
            Keeps->>= (Keeps-make_fd_inheritable env fd) λ r.
              Keeps-try r (λ e. Keeps-create_result _ e) (λ _. Keeps-launch_hev j config fd)))))

  pub Keeps-start_hev_tun :
      Joins env C → (args : List ℕ) → Keeps C (Healthy any) (Tun.start_hev_tun env args)
  unfolding Tun.start_hev_tun
  Keeps-start_hev_tun j args = search (keeps_rules, Keeps-create_result, Keeps-run_hev j) depth 20

  Keeps-call_if_some : {k : Known} (f : Option ℕ) → Keeps C (Healthy k) (Tun.call_if_some f)
  unfolding Tun.call_if_some
  Keeps-call_if_some none = Keeps-pure _
  Keeps-call_if_some (some f) = Keeps-emit _ refl

  Keeps-stop_hev : Joins env C → Keeps C (Healthy any) (Tun.stop_hev env)
  unfolding Tun.stop_hev
  Keeps-stop_hev j =
      search (keeps_rules, Keeps-call_if_some, Keeps-join_hev_thread j, Keeps-create_result) depth
        20

  Keeps-detach_stop : {k : Known} (f : ℕ) → Keeps C (Healthy k) (Tun.detach_stop (some f))
  unfolding Tun.detach_stop
  Keeps-detach_stop f = Keeps-emit _ refl

  Keeps-stop_gvisor : Keeps C (Healthy any) (Tun.stop_gvisor env)
  unfolding Tun.stop_gvisor
  Keeps-stop_gvisor = Keeps-of_Triple (
      Ends-load (load_tun2socks_core-Loaded env) (λ e. Ends-any (Keeps-create_result _ e))
        (λ _. Ends-any (
          Keeps-symbol _ _ (λ s h. (h.tun2socks_symbols h.present).1)
            λ p. search (keeps_rules, Keeps-detach_stop, Keeps-create_result))))

  pub Keeps-stop_tun2socks : Joins env C → Keeps C (Healthy any) (Tun.stop_tun2socks env)
  unfolding Tun.stop_tun2socks
  Keeps-stop_tun2socks j = Keeps->>= (Keeps-gets _) λ b.
      Keeps-if (not b) (Keeps-create_result _ _) (
        Keeps->>= (Keeps-gets _) λ engine. Keeps->> Keeps-engine_none (
          Keeps->> (Keeps-set_tun_running false) (Keeps-if _ (Keeps-stop_hev j) Keeps-stop_gvisor)))

  set_upload :
      {k : Known} (n : ℤ) → Keeps C (Healthy k) (modify (λ s. record s { upload_bytes = n }))
  unfolding modify
  set_upload n = record { keeps = λ s h. ground arith }

  set_download :
      {k : Known} (n : ℤ) → Keeps C (Healthy k) (modify (λ s. record s { download_bytes = n }))
  unfolding modify
  set_download n = record { keeps = λ s h. ground arith }

  Keeps-read_hev : (f : Option ℕ) → Keeps C (Healthy any) (Tun.read_hev env f)
  unfolding Tun.read_hev
  Keeps-read_hev none = Keeps-pure _
  Keeps-read_hev (some f) = Keeps->>= (Keeps-ask _ _ (λ _. refl)) λ c. Keeps-set_bytes _ _

  Keeps-read_tun2socks : (f g : Option ℕ) → Keeps C (Healthy any) (Tun.read_tun2socks env f g)
  unfolding Tun.read_tun2socks
  Keeps-read_tun2socks (some f) (some g) =
      Keeps->>= (Keeps-ask _ _ (λ _. refl))
        λ u. Keeps->> (set_upload u) (Keeps->>= (Keeps-ask _ _ (λ _. refl)) λ d. set_download d)
  Keeps-read_tun2socks (some f) none = Keeps-pure _
  Keeps-read_tun2socks none g = Keeps-pure _

  Keeps-refresh_counters : Keeps C (Healthy any) (Tun.refresh_counters env)
  unfolding Tun.refresh_counters
  Keeps-refresh_counters =
      Keeps->>= (Keeps-gets _) λ s. Keeps-if _ (Keeps-read_hev _) (Keeps-read_tun2socks _ _)

  pub Keeps-get_stats : Keeps C (Healthy any) (Tun.get_stats env)
  unfolding Tun.get_stats
  Keeps-get_stats = search (keeps_rules, Keeps-refresh_counters) depth 20

  Keeps-create_ping_result :
      {k : Known} (ok : Bool) (delay : ℤ) (message : Text)
      → Keeps C (Healthy k) (Ping.create_ping_result ok delay message)
  unfolding Ping.create_ping_result
  Keeps-create_ping_result ok delay message = search (keeps_rules, Keeps-log)

  Keeps-ping_failed : {k : Known} (message : Text) → Keeps C (Healthy k) (Ping.ping_failed message)
  unfolding Ping.ping_failed
  Keeps-ping_failed message = Keeps-create_ping_result _ _ _

  Keeps-judge_ping : {k : Known} (response : Text) → Keeps C (Healthy k) (Ping.judge_ping response)
  unfolding Ping.judge_ping
  Keeps-judge_ping response =
      search (keeps_rules, Keeps-ping_failed, Keeps-create_ping_result) depth 20

  Keeps-run_ping :
      (config dat_dir url : Text) (timeout : ℕ) (proxy : Text)
      → Keeps C (Healthy any) (Ping.run_ping env config dat_dir url timeout proxy)
  unfolding Ping.run_ping
  Keeps-run_ping config dat_dir url timeout proxy = Keeps->> (Keeps-prepare_xray_asset_dir _) (
      Keeps->>= (Keeps-write_text_file env _ _) λ w. Keeps-try w Keeps-ping_failed (λ _.
        Keeps-of_Triple (
          Ends-load (invoke_xray-Loaded env _ _) (λ e. Ends-any (Keeps-ping_failed e))
            (λ r. Ends-any (Keeps-judge_ping r)))))

  pub Keeps-ping_outbound : (args : List ℕ) → Keeps C (Healthy any) (Ping.ping_outbound env args)
  unfolding Ping.ping_outbound
  Keeps-ping_outbound args = search (keeps_rules, Keeps-ping_failed, Keeps-run_ping) depth 20
