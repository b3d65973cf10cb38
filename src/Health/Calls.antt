-- ===== src/Health/Calls.antt =====
-- Every handler of the module, and every sequence of calls from the start of the process.
use hey.Bridge.Keeps.{Allowed, no_crash, null_call}
use hey.Prelude.{ℕ, List, [], ◌∷◌, refl, ◌≢◌, All}
use hey.Bridge.State.{Env, Bridge, initial}
use hey.Bridge.Monad.{M}
use hey.Bridge.Keeps.{Ensures, Keeps, Keeps->>=, Keeps-pure}
use hey.Module
use hey.Module.{Method, Call, Reply}
use hey.Health.Invariant.{Joins, any, Healthy, initial-IsHealthy}
use hey.Health.Queries
use hey.Health.XrayHandlers
use hey.Health.SingboxHandlers
use hey.Health.TunHandlers

Keeps-reply {ℓ} :
    {A : Type ℓ} {C : Allowed} {I : Bridge → Type 0} (f : A → Reply) {m : M A}
    → Keeps C I m
    → Keeps C I (Module.reply f m)
unfolding Module.reply
Keeps-reply f h = Keeps->>= h (λ a. Keeps-pure _)

-- The stops that a handler may need: `setTunFd` calls through a pointer that may be null, and the hev
-- handlers join a thread.
abbrev pub Needs : Env → Allowed → Method → Type 0
Needs env C Module.set_tun_fd_method = C null_call
Needs env C Module.start_hev_tun_method = Joins env C
Needs env C Module.stop_tun2socks_method = Joins env C
Needs env C _ = Unit

Needs-of_Joins :
    (env : Env) (C : Allowed) (m : Method)
    → Joins env C
    → m ≢ Module.set_tun_fd_method
    → Needs env C m
Needs-of_Joins env C Module.set_tun_fd_method j h = absurd (h refl)
Needs-of_Joins env C Module.start_hev_tun_method j h = j
Needs-of_Joins env C Module.stop_tun2socks_method j h = j
Needs-of_Joins env C _ j h = tt

Needs-no_crash : (env : Env) (m : Method) → m ≢ Module.set_tun_fd_method → Needs env no_crash m
Needs-no_crash env m = Needs-of_Joins env no_crash m (λ t e. tt)

pub All-map {ℓ κ} :
    {A : Type ℓ} {P Q : A → Type κ} → ((a : A) → P a → Q a) → (xs : List A) → All P xs → All Q xs
All-map f [] h = tt
All-map f (x ∷ xs) (p, h) = (f x p, All-map f xs h)

module _ (env : Env) where
  pub handle-Keeps :
      {C : Allowed} (m : Method) (args : List ℕ)
      → Needs env C m
      → Keeps C (Healthy any) (Module.handle env m args)
  unfolding Module.handle
  handle-Keeps Module.validate_config_method args n =
      Keeps-reply _ (XrayHandlers.Keeps-validate_config env args)
  handle-Keeps Module.set_tun_fd_method args n =
      Keeps-reply _ (XrayHandlers.Keeps-set_tun_fd env n args)
  handle-Keeps Module.start_xray_method args n =
      Keeps-reply _ (XrayHandlers.Keeps-start_xray env args)
  handle-Keeps Module.stop_xray_method args n = Keeps-reply _ (XrayHandlers.Keeps-stop_xray env)
  handle-Keeps Module.get_stats_method args n = Keeps-reply _ (TunHandlers.Keeps-get_stats env)
  handle-Keeps Module.start_tun2socks_method args n =
      Keeps-reply _ (TunHandlers.Keeps-start_tun2socks env args)
  handle-Keeps Module.start_hev_tun_method args n =
      Keeps-reply _ (TunHandlers.Keeps-start_hev_tun env n args)
  handle-Keeps Module.stop_tun2socks_method args n =
      Keeps-reply _ (TunHandlers.Keeps-stop_tun2socks env n)
  handle-Keeps Module.ping_outbound_method args n =
      Keeps-reply _ (TunHandlers.Keeps-ping_outbound env args)
  handle-Keeps Module.query_stats_method args n = Keeps-reply _ (Queries.Keeps-query_stats env args)
  handle-Keeps Module.test_xray_config_method args n =
      Keeps-reply _ (Queries.Keeps-test_xray_config env args)
  handle-Keeps Module.xray_version_method args n = Keeps-reply _ (Queries.Keeps-xray_version env)
  handle-Keeps Module.count_geo_data_method args n =
      Keeps-reply _ (Queries.Keeps-count_geo_data env args)
  handle-Keeps Module.read_geo_files_method args n =
      Keeps-reply _ (Queries.Keeps-read_geo_files env args)
  handle-Keeps Module.get_free_ports_method args n =
      Keeps-reply _ (Queries.Keeps-get_free_ports env args)
  handle-Keeps Module.convert_share_links_method args n =
      Keeps-reply _ (Queries.Keeps-convert_share_links_to_xray_json env args)
  handle-Keeps Module.convert_xray_json_method args n =
      Keeps-reply _ (Queries.Keeps-convert_xray_json_to_share_links env args)
  handle-Keeps Module.singbox_probe_method args n =
      Keeps-reply _ (SingboxHandlers.Keeps-singbox_probe env)
  handle-Keeps Module.singbox_version_method args n =
      Keeps-reply _ (SingboxHandlers.Keeps-singbox_version env)
  handle-Keeps Module.singbox_set_tun_fd_method args n =
      Keeps-reply _ (SingboxHandlers.Keeps-singbox_set_tun_fd env args)
  handle-Keeps Module.singbox_start_method args n =
      Keeps-reply _ (SingboxHandlers.Keeps-singbox_start env args)
  handle-Keeps Module.singbox_stop_method args n =
      Keeps-reply _ (SingboxHandlers.Keeps-singbox_stop env)

  pub run-Keeps :
      {C : Allowed} (calls : List Call)
      → All (λ c. Needs env C c.method) calls
      → Keeps C (Healthy any) (Module.run env calls)
  unfolding Module.run
  run-Keeps [] h = Keeps-pure _
  run-Keeps (c ∷ calls) (n, h) =
      Keeps->>= (handle-Keeps c.method c.args n)
        λ r. Keeps->>= (run-Keeps calls h) λ rs. Keeps-pure _

  -- From the start of the process, no sequence of calls other than `setTunFd` crashes the bridge,
  -- and where the sequence returns, `Healthy` holds: of each allocator, as many strings were freed as
  -- were returned; the environment variable was set at most once; a library with a handle has all of
  -- its required symbols; a core that counts as running and the engine in use have a handle; and the
  -- engine is none, gVisor or hev. Of a call that waits forever it says nothing.
  pub run-initial :
      (calls : List Call)
      → All (λ c. c.method ≢ Module.set_tun_fd_method) calls
      → Ensures no_crash (λ _ s. Healthy any s) (Module.run env calls initial)
  run-initial calls h =
      (run-Keeps {C = no_crash} calls (All-map (λ c. Needs-no_crash env c.method) calls h)).keeps
        initial initial-IsHealthy
