-- ===== src/Module.antt =====
-- The module's entry points: the table of `Init` in entry/src/main/cpp/napi_init.cpp, and the
-- handler behind each.
use hey.Prelude.{ℕ, List, [], ◌∷◌, Option, none, some, if◌then◌else◌}
use hey.Codec.Text.{Text, text, text_eq}
use hey.Bridge.State.{Env}
use hey.Bridge.Monad.{M, pure, ◌>>=◌}
use hey.Bridge.Calls.{NapiResult}
use hey.Xray.{validate_config, set_tun_fd, start_xray, stop_xray}
use hey.Tun.{RuntimeStats, get_stats, start_tun2socks, start_hev_tun, stop_tun2socks}
use hey.Ping.{PingResult, ping_outbound}
use hey.Query.{query_stats, test_xray_config, xray_version, count_geo_data, read_geo_files}
use hey.Query.{get_free_ports, convert_share_links_to_xray_json, convert_xray_json_to_share_links}
use hey.Singbox.{singbox_probe, singbox_version, singbox_set_tun_fd, singbox_start, singbox_stop}

pub data Method : Type 0 where
  validate_config_method set_tun_fd_method start_xray_method stop_xray_method : Method
  get_stats_method start_tun2socks_method start_hev_tun_method stop_tun2socks_method : Method
  ping_outbound_method query_stats_method test_xray_config_method xray_version_method : Method
  count_geo_data_method read_geo_files_method get_free_ports_method : Method
  convert_share_links_method convert_xray_json_method : Method
  singbox_probe_method singbox_version_method singbox_set_tun_fd_method : Method
  singbox_start_method singbox_stop_method : Method

-- The object that a handler returns.
pub data Reply : Type 0 where
  result : NapiResult → Reply
  ping : PingResult → Reply
  stats : RuntimeStats → Reply

unfoldable pub desc : List (Text × Method)
desc =
    (text "validateConfig", validate_config_method)
    ∷ (text "setTunFd", set_tun_fd_method)
    ∷ (text "startXray", start_xray_method)
    ∷ (text "stopXray", stop_xray_method)
    ∷ (text "getStats", get_stats_method)
    ∷ (text "startTun2Socks", start_tun2socks_method)
    ∷ (text "startHevTun", start_hev_tun_method)
    ∷ (text "stopTun2Socks", stop_tun2socks_method)
    ∷ (text "pingOutbound", ping_outbound_method)
    ∷ (text "queryStats", query_stats_method)
    ∷ (text "testXrayConfig", test_xray_config_method)
    ∷ (text "xrayVersion", xray_version_method)
    ∷ (text "countGeoData", count_geo_data_method)
    ∷ (text "readGeoFiles", read_geo_files_method)
    ∷ (text "getFreePorts", get_free_ports_method)
    ∷ (text "convertShareLinksToXrayJson", convert_share_links_method)
    ∷ (text "convertXrayJsonToShareLinks", convert_xray_json_method)
    ∷ (text "singboxProbe", singbox_probe_method)
    ∷ (text "singboxVersion", singbox_version_method)
    ∷ (text "singboxSetTunFd", singbox_set_tun_fd_method)
    ∷ (text "singboxStart", singbox_start_method)
    ∷ (text "singboxStop", singbox_stop_method)
    ∷ []

unfoldable pub method_named : Text → List (Text × Method) → Option Method
method_named name [] = none
method_named name ((n, m) ∷ table) = if text_eq name n then some m else method_named name table

unfoldable pub reply {ℓ} : {A : Type ℓ} → (A → Reply) → M A → M Reply
reply f m = m >>= λ a. pure (f a)

-- A call of one property of the exported object.
unfoldable pub handle : Env → Method → List ℕ → M Reply
handle env validate_config_method args = reply result (validate_config env args)
handle env set_tun_fd_method args = reply result (set_tun_fd env args)
handle env start_xray_method args = reply result (start_xray env args)
handle env stop_xray_method args = reply result (stop_xray env)
handle env get_stats_method args = reply stats (get_stats env)
handle env start_tun2socks_method args = reply result (start_tun2socks env args)
handle env start_hev_tun_method args = reply result (start_hev_tun env args)
handle env stop_tun2socks_method args = reply result (stop_tun2socks env)
handle env ping_outbound_method args = reply ping (ping_outbound env args)
handle env query_stats_method args = reply result (query_stats env args)
handle env test_xray_config_method args = reply result (test_xray_config env args)
handle env xray_version_method args = reply result (xray_version env)
handle env count_geo_data_method args = reply result (count_geo_data env args)
handle env read_geo_files_method args = reply result (read_geo_files env args)
handle env get_free_ports_method args = reply result (get_free_ports env args)
handle env convert_share_links_method args =
    reply result (convert_share_links_to_xray_json env args)
handle env convert_xray_json_method args = reply result (convert_xray_json_to_share_links env args)
handle env singbox_probe_method args = reply result (singbox_probe env)
handle env singbox_version_method args = reply result (singbox_version env)
handle env singbox_set_tun_fd_method args = reply result (singbox_set_tun_fd env args)
handle env singbox_start_method args = reply result (singbox_start env args)
handle env singbox_stop_method args = reply result (singbox_stop env)

-- A call as ArkTS makes it: the handler and the N-API values.
pub record Call : Type 0 where
  pub method : Method
  pub args : List ℕ

-- A sequence of calls with its answers, up to a crash or a thread that waits forever.
unfoldable pub run : Env → List Call → M (List Reply)
run env [] = pure []
run env (c ∷ calls) = do
  answer ← handle env c.method c.args
  answers ← run env calls
  pure (answer ∷ answers)
