-- ===== src/Frame/Queries.antt =====
-- The handlers that answer a question keep what a `Frame` keeps.
use hey.Prelude.{
  ℕ, ℤ, ◌≡◌, refl, List, Bool, true, false, not, Option, none, some, ltb, length, is_empty, pos,
  ltb_ℤ, if◌then◌else◌, arith,
}
use hey.Codec.Text.{Text}
use hey.Codec.Base64.{base64_encode}
use hey.Bridge.State.{Env, Bridge, Arguments}
use hey.Bridge.Monad.{M}
use hey.Bridge.Calls
use hey.Bridge.Keeps.{
  Keeps, anything, Keeps->>=, Keeps->>, Keeps-if, Keeps-try, Keeps-option, Keeps-pure, Keeps-unless,
  keeps_rules,
}
use hey.Loader.Symbols
use hey.Query
use hey.Ping
use hey.Singbox
use hey.Module
use hey.Module.{Method, Reply}
use hey.Frame.{Frame, valid_arguments}
use hey.Frame.Steps

-- The calls that only answer a question.
abbrev pub is_query : Method → Bool
is_query Module.ping_outbound_method = true
is_query Module.query_stats_method = true
is_query Module.test_xray_config_method = true
is_query Module.xray_version_method = true
is_query Module.count_geo_data_method = true
is_query Module.read_geo_files_method = true
is_query Module.get_free_ports_method = true
is_query Module.convert_share_links_method = true
is_query Module.convert_xray_json_method = true
is_query Module.singbox_probe_method = true
is_query Module.singbox_version_method = true
is_query _ = false

-- The count of ports is from 1 to 16.
clamped :
    (count : ℤ)
    → not (ltb_ℤ (pos 0) count) ≡ false
    → valid_arguments (Arguments.int_argument (if ltb_ℤ (pos 16) count then pos 16 else count))
      ≡ true
clamped count h = ground arith

module _ {I : Bridge → Type 0} (fr : Frame I) (env : Env) where
  Keeps-query_text :
      (args : List ℕ) (missing empty : Text) (load : M (Option ℕ)) (unavailable message : Text)
      → Keeps anything I load
      → Keeps anything I (Query.query_text env args missing empty load unavailable message)
  unfolding Query.query_text
  Keeps-query_text args missing empty load unavailable message found =
      let value = Calls.get_string_arg env (Calls.arg args 0) in
      Keeps-if (ltb (length args) 1) ((Steps.Keeps-create_result_quiet fr) false missing) (
        Keeps-if (is_empty value) ((Steps.Keeps-create_result_quiet fr) false empty) (
          Keeps->>= found λ f.
            Steps.Keeps-call_and_report fr env f unavailable
              (Arguments.string_argument (base64_encode value)) message refl))

  Keeps-query_stats : (args : List ℕ) → Keeps anything I (Query.query_stats env args)
  unfolding Query.query_stats Symbols.load_query_stats
  Keeps-query_stats args = Keeps-query_text args _ _ _ _ _ (Steps.Keeps-lazy_symbol fr env _ _ _)

  Keeps-read_geo_files : (args : List ℕ) → Keeps anything I (Query.read_geo_files env args)
  unfolding Query.read_geo_files Symbols.load_read_geo_files
  Keeps-read_geo_files args = Keeps-query_text args _ _ _ _ _ (Steps.Keeps-lazy_symbol fr env _ _ _)

  Keeps-convert_share_links :
      (args : List ℕ) → Keeps anything I (Query.convert_share_links_to_xray_json env args)
  unfolding Query.convert_share_links_to_xray_json Symbols.load_convert_share_links_to_xray_json
  Keeps-convert_share_links args =
      Keeps-query_text args _ _ _ _ _ (Steps.Keeps-lazy_symbol fr env _ _ _)

  Keeps-convert_xray_json :
      (args : List ℕ) → Keeps anything I (Query.convert_xray_json_to_share_links env args)
  unfolding Query.convert_xray_json_to_share_links Symbols.load_convert_xray_json_to_share_links
  Keeps-convert_xray_json args =
      Keeps-query_text args _ _ _ _ _ (Steps.Keeps-lazy_symbol fr env _ _ _)

  Keeps-load_test_xray : Keeps anything I (Symbols.load_test_xray env)
  unfolding Symbols.load_test_xray
  Keeps-load_test_xray = Steps.Keeps-lazy_symbol fr env _ _ _

  Keeps-load_count_geo_data : Keeps anything I (Symbols.load_count_geo_data env)
  unfolding Symbols.load_count_geo_data
  Keeps-load_count_geo_data = Steps.Keeps-lazy_symbol fr env _ _ _

  Keeps-load_get_free_ports : Keeps anything I (Symbols.load_get_free_ports env)
  unfolding Symbols.load_get_free_ports
  Keeps-load_get_free_ports = Steps.Keeps-lazy_symbol fr env _ _ _

  Keeps-test_with :
      (f : Option ℕ) (config work_dir : Text)
      → Keeps anything I (Query.test_with env f config work_dir)
  unfolding Query.test_with
  Keeps-test_with none config work_dir = (Steps.Keeps-create_result_quiet fr) _ _
  Keeps-test_with (some f) config work_dir = Keeps->>= (Steps.Keeps-write_text_file fr env _ _) λ w.
      Keeps-try w (λ e. (Steps.Keeps-create_result_quiet fr) _ _)
        (λ _. Steps.Keeps-report_call fr env _ _ _ refl)

  Keeps-test_xray_config : (args : List ℕ) → Keeps anything I (Query.test_xray_config env args)
  unfolding Query.test_xray_config
  Keeps-test_xray_config args =
      search
        (keeps_rules, Keeps-load_test_xray, Keeps-test_with, (Steps.Keeps-create_result_quiet fr))
        depth 20

  Keeps-xray_version : Keeps anything I (Query.xray_version env)
  unfolding Query.xray_version Symbols.load_xray_version
  Keeps-xray_version =
      Keeps->>= (Steps.Keeps-lazy_symbol fr env _ _ _)
        λ f. Steps.Keeps-call_and_report fr env f _ _ _ refl

  Keeps-count_geo_data : (args : List ℕ) → Keeps anything I (Query.count_geo_data env args)
  unfolding Query.count_geo_data
  Keeps-count_geo_data args =
      search
        (
          keeps_rules,
          Keeps-load_count_geo_data,
          Steps.Keeps-call_and_report fr env,
          (Steps.Keeps-create_result_quiet fr),
        )
        depth 20

  Keeps-get_free_ports : (args : List ℕ) → Keeps anything I (Query.get_free_ports env args)
  unfolding Query.get_free_ports
  Keeps-get_free_ports args =
      let count = Calls.get_int_arg env (Calls.arg args 0) in
      Keeps-if (ltb (length args) 1) ((Steps.Keeps-create_result_quiet fr) false _) (
        Keeps-unless (not (ltb_ℤ (pos 0) count)) ((Steps.Keeps-create_result_quiet fr) false _)
          λ positive.
            Keeps->>= Keeps-load_get_free_ports
              λ f. Steps.Keeps-call_and_report fr env f _ _ _ (clamped count positive))

  Keeps-singbox_probe : Keeps anything I (Singbox.singbox_probe env)
  unfolding Singbox.singbox_probe
  Keeps-singbox_probe = Keeps->>= (Steps.Keeps-open_singbox fr env) λ o.
      Keeps-try o (λ e. (Steps.Keeps-create_result_quiet fr) _ e)
        λ h. Keeps->>= (Steps.Keeps-dlerror fr env) λ _.
          Keeps->>= (Steps.Keeps-dlsym fr env h _) λ _.
            Keeps->>= (Steps.Keeps-dlsym fr env h _) λ _.
              Keeps->>= (Steps.Keeps-dlsym fr env h _) λ _.
                Keeps->>= (Steps.Keeps-dlsym fr env h _)
                  λ _. (Steps.Keeps-create_result_quiet fr) _ _

  Keeps-singbox_version : Keeps anything I (Singbox.singbox_version env)
  unfolding Singbox.singbox_version
  Keeps-singbox_version = Keeps->>= (Steps.Keeps-open_singbox fr env) λ o.
      Keeps-try o (λ e. (Steps.Keeps-create_result_quiet fr) _ e)
        (λ h. Keeps->>= (Steps.Keeps-dlerror fr env) λ _.
          Keeps->>= (Steps.Keeps-dlsym fr env _ _) λ v.
            Keeps-option v ((Steps.Keeps-create_result_quiet fr) _ _)
              (λ f. Steps.Keeps-report_call fr env f _ _ refl))

  Keeps-create_ping_result :
      (ok : Bool) (delay : ℤ) (message : Text)
      → Keeps anything I (Ping.create_ping_result ok delay message)
  unfolding Ping.create_ping_result
  Keeps-create_ping_result ok delay message = Keeps->> ((Steps.Keeps-log fr) _ _) (Keeps-pure _)

  Keeps-ping_failed : (message : Text) → Keeps anything I (Ping.ping_failed message)
  unfolding Ping.ping_failed
  Keeps-ping_failed message = Keeps-create_ping_result _ _ _

  Keeps-judge_ping : (response : Text) → Keeps anything I (Ping.judge_ping response)
  unfolding Ping.judge_ping
  Keeps-judge_ping response =
      search (keeps_rules, Keeps-ping_failed, Keeps-create_ping_result) depth 20

  Keeps-run_ping :
      (config dat_dir url : Text) (timeout : ℕ) (proxy : Text)
      → Keeps anything I (Ping.run_ping env config dat_dir url timeout proxy)
  unfolding Ping.run_ping
  Keeps-run_ping config dat_dir url timeout proxy =
      Keeps->> ((Steps.Keeps-prepare_xray_asset_dir fr) _) (
        Keeps->>= (Steps.Keeps-write_text_file fr env _ _) λ w. Keeps-try w Keeps-ping_failed λ _.
          Keeps->>= (Steps.Keeps-invoke_xray fr env _ _)
            λ i. Keeps-try i Keeps-ping_failed Keeps-judge_ping)

  Keeps-ping_outbound : (args : List ℕ) → Keeps anything I (Ping.ping_outbound env args)
  unfolding Ping.ping_outbound
  Keeps-ping_outbound args = search (keeps_rules, Keeps-ping_failed, Keeps-run_ping) depth 20

  Keeps-reply {ℓ} :
      {A : Type ℓ} (f : A → Reply) {m : M A}
      → Keeps anything I m
      → Keeps anything I (Module.reply f m)
  unfolding Module.reply
  Keeps-reply f h = Keeps->>= h (λ a. Keeps-pure _)

  pub Keeps-query :
      (m : Method) (args : List ℕ) → is_query m ≡ true → Keeps anything I (Module.handle env m args)
  unfolding Module.handle
  Keeps-query Module.ping_outbound_method args e = Keeps-reply _ (Keeps-ping_outbound args)
  Keeps-query Module.query_stats_method args e = Keeps-reply _ (Keeps-query_stats args)
  Keeps-query Module.test_xray_config_method args e = Keeps-reply _ (Keeps-test_xray_config args)
  Keeps-query Module.xray_version_method args e = Keeps-reply _ Keeps-xray_version
  Keeps-query Module.count_geo_data_method args e = Keeps-reply _ (Keeps-count_geo_data args)
  Keeps-query Module.read_geo_files_method args e = Keeps-reply _ (Keeps-read_geo_files args)
  Keeps-query Module.get_free_ports_method args e = Keeps-reply _ (Keeps-get_free_ports args)
  Keeps-query Module.convert_share_links_method args e =
      Keeps-reply _ (Keeps-convert_share_links args)
  Keeps-query Module.convert_xray_json_method args e = Keeps-reply _ (Keeps-convert_xray_json args)
  Keeps-query Module.singbox_probe_method args e = Keeps-reply _ Keeps-singbox_probe
  Keeps-query Module.singbox_version_method args e = Keeps-reply _ Keeps-singbox_version
  Keeps-query Module.validate_config_method args e = cc
  Keeps-query Module.set_tun_fd_method args e = cc
  Keeps-query Module.start_xray_method args e = cc
  Keeps-query Module.stop_xray_method args e = cc
  Keeps-query Module.get_stats_method args e = cc
  Keeps-query Module.start_tun2socks_method args e = cc
  Keeps-query Module.start_hev_tun_method args e = cc
  Keeps-query Module.stop_tun2socks_method args e = cc
  Keeps-query Module.singbox_set_tun_fd_method args e = cc
  Keeps-query Module.singbox_start_method args e = cc
  Keeps-query Module.singbox_stop_method args e = cc
