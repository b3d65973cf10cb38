-- ===== src/Query.antt =====
-- The auxiliary queries of entry/src/main/cpp/napi_init.cpp: `BuildCallResult`, `QueryStats`,
-- `TestXrayConfig`, `XrayVersion`, `CountGeoData`, `ReadGeoFiles`, `GetFreePorts`,
-- `ConvertShareLinksToXrayJson` and `ConvertXrayJsonToShareLinks`.
use hey.Prelude.{ℕ, List, [], ◌∷◌, ◌++◌, true, false, ◌&&◌, not, Option, none, some, pos}
use hey.Prelude.{ltb, if◌then◌else◌, is_empty, length, ltb_ℤ}
use hey.Codec.Text.{Text, text, contains, text_eq}
use hey.Codec.Base64.{base64_encode, base64_decode}
use hey.Codec.Json.{json_escape}
use hey.Codec.Response.{success_key}
use hey.Bridge.State.{Env, Arguments, Allocator}
use hey.Bridge.Monad.{M, success, failure, ◌>>=◌, ◌>>◌}
use hey.Bridge.Calls.{NapiResult, create_result_quiet, write_text_file, get_string_arg, get_int_arg}
use hey.Bridge.Calls.{call_string, std_free, arg}
use hey.Loader.Symbols.{load_query_stats, load_test_xray, load_xray_version, load_count_geo_data}
use hey.Loader.Symbols.{load_read_geo_files, load_get_free_ports}
use hey.Loader.Symbols.{load_convert_share_links_to_xray_json}
use hey.Loader.Symbols.{load_convert_xray_json_to_share_links}
use hey.Xray.{lacks_sections}

-- What `BuildCallResult` makes of a response: base64 of JSON, or the JSON itself.
unfoldable pub decoded_response : Text → Text
decoded_response response =
    let decoded = base64_decode response in
    if not (contains decoded (b'{' ∷ [])) then response else decoded

unfoldable pub build_call_result : Option Text → Text → M NapiResult
build_call_result none null_message = create_result_quiet false null_message
build_call_result (some response) null_message = do
  std_free response
  create_result_quiet (contains (decoded_response response) success_key) (decoded_response response)

-- `char* raw = f(…); return BuildCallResult(env, raw, message);`
unfoldable pub report_call : Env → ℕ → Arguments → Text → M NapiResult
report_call env f args null_message = do
  raw ← call_string env Allocator.malloc (some f) args
  build_call_result raw null_message

-- The same for a symbol that may be missing, with the message for that.
unfoldable pub call_and_report : Env → Option ℕ → Text → Arguments → Text → M NapiResult
call_and_report env none missing args null_message = create_result_quiet false missing
call_and_report env (some f) missing args null_message = report_call env f args null_message

abbrev pub test_config_file : Text
test_config_file = text "hey-xray-test-config.json"

unfoldable pub test_request : Text → Text → Text
test_request work_dir config_path =
    text "{\"datDir\":\""
    ++ (json_escape work_dir
        ++ (text "\",\"configPath\":\"" ++ (json_escape config_path ++ text "\"}")))

unfoldable pub count_request : Text → Text → Text → Text
count_request dat_dir name geo_type =
    text "{\"datDir\":\""
    ++ (json_escape dat_dir
        ++ (text "\",\"name\":\""
            ++ (json_escape name
                ++ (text "\",\"geoType\":\"" ++ (json_escape geo_type ++ text "\"}")))))

module _ (env : Env) where
  -- One string argument that may not be empty, handed to a symbol as base64.
  unfoldable pub query_text : List ℕ → Text → Text → M (Option ℕ) → Text → Text → M NapiResult
  query_text args missing empty load unavailable null_message =
      let value = get_string_arg env (arg args 0) in
      if ltb (length args) 1
      then create_result_quiet false missing
      else if is_empty value
      then create_result_quiet false empty
      else do
        f ← load
        call_and_report env f unavailable (Arguments.string_argument (base64_encode value))
            null_message

  unfoldable pub query_stats : List ℕ → M NapiResult
  query_stats args =
      query_text args (text "Missing stats server.") (text "Stats server is empty.")
        (load_query_stats env) (text "Stats unavailable: CGoQueryStats not exported by libXray.")
        (text "CGoQueryStats returned null.")

  unfoldable pub read_geo_files : List ℕ → M NapiResult
  read_geo_files args =
      query_text args (text "Missing Xray config JSON.") (text "Xray config JSON is empty.")
        (load_read_geo_files env)
        (text "Geo file reader unavailable: CGoReadGeoFiles not exported by libXray.")
        (text "CGoReadGeoFiles returned null.")

  unfoldable pub convert_share_links_to_xray_json : List ℕ → M NapiResult
  convert_share_links_to_xray_json args =
      query_text args (text "Missing share text.") (text "Share text is empty.")
        (load_convert_share_links_to_xray_json env)
        (text
          "Share conversion unavailable: CGoConvertShareLinksToXrayJson not exported by libXray.")
        (text "CGoConvertShareLinksToXrayJson returned null.")

  unfoldable pub convert_xray_json_to_share_links : List ℕ → M NapiResult
  convert_xray_json_to_share_links args =
      query_text args (text "Missing Xray config JSON.") (text "Xray config JSON is empty.")
        (load_convert_xray_json_to_share_links env)
        (text "Share export unavailable: CGOConvertXrayJsonToShareLinks not exported by libXray.")
        (text "CGOConvertXrayJsonToShareLinks returned null.")

  -- `TestXrayConfig` with a symbol: the file is written before the call.
  unfoldable pub test_with : Option ℕ → Text → Text → M NapiResult
  test_with none config work_dir =
      create_result_quiet true (text "Preflight skipped: CGoTestXray not exported by libXray.")
  test_with (some f) config work_dir = do
    let config_path = work_dir ++ (text "/" ++ test_config_file)
    written ← write_text_file env config_path config
    elim written [
      | failure message ↦ create_result_quiet false message
      | success _ ↦
          report_call env f
            (Arguments.string_argument (base64_encode (test_request work_dir config_path)))
            (text "CGoTestXray returned null.")
    ]

  unfoldable pub test_xray_config : List ℕ → M NapiResult
  test_xray_config args =
      let config = get_string_arg env (arg args 0) in
      let work_dir = get_string_arg env (arg args 1) in
      if ltb (length args) 2
      then create_result_quiet false (text "Missing test arguments.")
      else if is_empty config
      then create_result_quiet false (text "Test config JSON is empty.")
      else if is_empty work_dir
      then create_result_quiet false (text "Test requires a work directory.")
      else if lacks_sections config
      then create_result_quiet false
          (text "Generated Xray config must contain inbounds and outbounds.")
      else do f ← load_test_xray env; test_with f config work_dir

  unfoldable pub xray_version : M NapiResult
  xray_version = do
    f ← load_xray_version env
    call_and_report env f (text "Xray version unavailable: CGoXrayVersion not exported by libXray.")
        Arguments.no_arguments (text "CGoXrayVersion returned null.")

  unfoldable pub count_geo_data : List ℕ → M NapiResult
  count_geo_data args =
      let dat_dir = get_string_arg env (arg args 0) in
      let name = get_string_arg env (arg args 1) in
      let geo_type = get_string_arg env (arg args 2) in
      if ltb (length args) 3
      then create_result_quiet false (text "Missing geo count arguments.")
      else if is_empty dat_dir
      then create_result_quiet false (text "Geo data directory is empty.")
      else if is_empty name
      then create_result_quiet false (text "Geo data file name is empty.")
      else if not (text_eq geo_type (text "domain")) && not (text_eq geo_type (text "ip"))
      then create_result_quiet false (text "Geo data type must be domain or ip.")
      else do
        f ← load_count_geo_data env
        call_and_report env f
            (text "Geo count unavailable: CGoCountGeoData not exported by libXray.")
            (Arguments.string_argument (base64_encode (count_request dat_dir name geo_type)))
            (text "CGoCountGeoData returned null.")

  unfoldable pub get_free_ports : List ℕ → M NapiResult
  get_free_ports args =
      let count = get_int_arg env (arg args 0) in
      if ltb (length args) 1
      then create_result_quiet false (text "Missing free-port count.")
      else if not (ltb_ℤ (pos 0) count)
      then create_result_quiet false (text "Free-port count must be positive.")
      else do
        f ← load_get_free_ports env
        call_and_report env f
            (text "Free ports unavailable: CGoGetFreePorts not exported by libXray.")
            (Arguments.int_argument (if ltb_ℤ (pos 16) count then pos 16 else count))
            (text "CGoGetFreePorts returned null.")
