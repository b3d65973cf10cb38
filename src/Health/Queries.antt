-- ===== src/Health/Queries.antt =====
-- The auxiliary queries and the pings keep the invariant, and none of them crashes.
use hey.Bridge.Keeps.{Allowed}
use hey.Prelude.{ℕ, List, ltb, length, is_empty, refl, false, Option, none, some}
use hey.Codec.Text.{Text}
use hey.Bridge.State.{Env, Arguments}
use hey.Bridge.Monad.{M}
use hey.Bridge.Keeps.{Keeps, Keeps->>=, Keeps-if, Keeps-try, keeps_rules}
use hey.Loader.Symbols
use hey.Query
use hey.Bridge.Calls
use hey.Codec.Base64.{base64_encode}
use hey.Health.Invariant.{any, Healthy}
use hey.Health.Helpers.{Keeps-create_result_quiet, Keeps-write_text_file}
use hey.Health.Effects.{Keeps-lazy_symbol, Keeps-call_and_report, Keeps-report_call}

module _ (env : Env) {C : Allowed} where
  -- One string argument, and the lazy symbol that it is handed to.
  Keeps-query_text :
      (args : List ℕ) (missing empty : Text) (load : M (Option ℕ)) (unavailable message : Text)
      → Keeps C (Healthy any) load
      → Keeps C (Healthy any) (Query.query_text env args missing empty load unavailable message)
  unfolding Query.query_text
  Keeps-query_text args missing empty load unavailable message found =
      let value = Calls.get_string_arg env (Calls.arg args 0) in
      Keeps-if (ltb (length args) 1) (Keeps-create_result_quiet false missing) (
        Keeps-if (is_empty value) (Keeps-create_result_quiet false empty) (
          Keeps->>= found λ f.
            Keeps-call_and_report env f unavailable
              (Arguments.string_argument (base64_encode value)) message))

  pub Keeps-query_stats : (args : List ℕ) → Keeps C (Healthy any) (Query.query_stats env args)
  unfolding Query.query_stats Symbols.load_query_stats
  Keeps-query_stats args =
      Keeps-query_text args _ _ _ _ _ (Keeps-lazy_symbol env _ _ _ (λ f x. (refl, refl, refl)))

  pub Keeps-read_geo_files : (args : List ℕ) → Keeps C (Healthy any) (Query.read_geo_files env args)
  unfolding Query.read_geo_files Symbols.load_read_geo_files
  Keeps-read_geo_files args =
      Keeps-query_text args _ _ _ _ _ (Keeps-lazy_symbol env _ _ _ (λ f x. (refl, refl, refl)))

  pub Keeps-convert_share_links_to_xray_json :
      (args : List ℕ) → Keeps C (Healthy any) (Query.convert_share_links_to_xray_json env args)
  unfolding Query.convert_share_links_to_xray_json Symbols.load_convert_share_links_to_xray_json
  Keeps-convert_share_links_to_xray_json args =
      Keeps-query_text args _ _ _ _ _ (Keeps-lazy_symbol env _ _ _ (λ f x. (refl, refl, refl)))

  pub Keeps-convert_xray_json_to_share_links :
      (args : List ℕ) → Keeps C (Healthy any) (Query.convert_xray_json_to_share_links env args)
  unfolding Query.convert_xray_json_to_share_links Symbols.load_convert_xray_json_to_share_links
  Keeps-convert_xray_json_to_share_links args =
      Keeps-query_text args _ _ _ _ _ (Keeps-lazy_symbol env _ _ _ (λ f x. (refl, refl, refl)))

  Keeps-load_test_xray : Keeps C (Healthy any) (Symbols.load_test_xray env)
  unfolding Symbols.load_test_xray
  Keeps-load_test_xray = Keeps-lazy_symbol env _ _ _ (λ f x. (refl, refl, refl))

  Keeps-load_xray_version : Keeps C (Healthy any) (Symbols.load_xray_version env)
  unfolding Symbols.load_xray_version
  Keeps-load_xray_version = Keeps-lazy_symbol env _ _ _ (λ f x. (refl, refl, refl))

  Keeps-load_count_geo_data : Keeps C (Healthy any) (Symbols.load_count_geo_data env)
  unfolding Symbols.load_count_geo_data
  Keeps-load_count_geo_data = Keeps-lazy_symbol env _ _ _ (λ f x. (refl, refl, refl))

  Keeps-load_get_free_ports : Keeps C (Healthy any) (Symbols.load_get_free_ports env)
  unfolding Symbols.load_get_free_ports
  Keeps-load_get_free_ports = Keeps-lazy_symbol env _ _ _ (λ f x. (refl, refl, refl))

  Keeps-test_with :
      (f : Option ℕ) (config work_dir : Text)
      → Keeps C (Healthy any) (Query.test_with env f config work_dir)
  unfolding Query.test_with
  Keeps-test_with none config work_dir = Keeps-create_result_quiet _ _
  Keeps-test_with (some f) config work_dir = Keeps->>= (Keeps-write_text_file env _ _) λ written.
      Keeps-try written (λ e. Keeps-create_result_quiet _ _) (λ _. Keeps-report_call env _ _ _)

  pub Keeps-test_xray_config :
      (args : List ℕ) → Keeps C (Healthy any) (Query.test_xray_config env args)
  unfolding Query.test_xray_config
  Keeps-test_xray_config args =
      search (keeps_rules, Keeps-load_test_xray, Keeps-test_with, Keeps-create_result_quiet) depth
        20

  pub Keeps-xray_version : Keeps C (Healthy any) (Query.xray_version env)
  unfolding Query.xray_version
  Keeps-xray_version = search (keeps_rules, Keeps-load_xray_version, Keeps-call_and_report env)

  pub Keeps-count_geo_data : (args : List ℕ) → Keeps C (Healthy any) (Query.count_geo_data env args)
  unfolding Query.count_geo_data
  Keeps-count_geo_data args =
      search
        (
          keeps_rules,
          Keeps-load_count_geo_data,
          Keeps-call_and_report env,
          Keeps-create_result_quiet,
        )
        depth 20

  pub Keeps-get_free_ports : (args : List ℕ) → Keeps C (Healthy any) (Query.get_free_ports env args)
  unfolding Query.get_free_ports
  Keeps-get_free_ports args =
      search
        (
          keeps_rules,
          Keeps-load_get_free_ports,
          Keeps-call_and_report env,
          Keeps-create_result_quiet,
        )
        depth 20
