-- ===== src/Xray.antt =====
-- The handlers `ValidateConfig`, `SetTunFd`, `StartXray`, `StopXray` and `GetStats` of
-- entry/src/main/cpp/napi_init.cpp. A handler's arguments are the N-API values given to it.
use hey.Prelude.{ℕ, List, ◌++◌, Bool, true, false, ◌||◌, not, pos}
use hey.Prelude.{ltb, leb, if◌then◌else◌, is_empty, length, ℤ, ltb_ℤ}
use hey.Codec.Text.{Text, text, contains}
use hey.Codec.Json.{json_escape}
use hey.Codec.Response.{invoke_success}
use hey.Bridge.State.{Env, Arguments}
use hey.Bridge.Monad.{M, success, failure, ◌>>=◌, ◌>>◌, gets, modify}
use hey.Bridge.Calls.{NapiResult, create_result, make_fd_inheritable, get_string_arg, get_int_arg}
use hey.Bridge.Calls.{call_void, arg}
use hey.Loader.Xray.{load_xray_core, load_xray, prepare_xray_asset_dir, invoke_xray}

-- The test on a generated configuration.
unfoldable pub lacks_sections : Text → Bool
lacks_sections config =
    not (contains config (text "\"inbounds\"")) || not (contains config (text "\"outbounds\""))

unfoldable pub set_xray_running : Bool → M (Unit {0})
set_xray_running b = modify (λ s. record s { xray_running = b })

unfoldable pub set_tun_running : Bool → M (Unit {0})
set_tun_running b = modify (λ s. record s { tun_running = b })

unfoldable pub set_bytes : ℤ → ℤ → M (Unit {0})
set_bytes up down = modify (λ s. record s { upload_bytes = up; download_bytes = down })

-- `g_xrayRunning.store(false); return CreateResult(env, false, message);`
unfoldable pub xray_failed : Text → M NapiResult
xray_failed message = do set_xray_running false; create_result false message

-- `g_tunRunning.store(false); return CreateResult(env, false, message);`
unfoldable pub tun_failed : Text → M NapiResult
tun_failed message = do set_tun_running false; create_result false message

-- `g_tunRunning.store(false); return CreateResult(env, true, message);`
unfoldable pub already_stopped : Text → M NapiResult
already_stopped message = do set_tun_running false; create_result true message

unfoldable pub run_payload : Text → Text
run_payload config = text "{\"configJSON\":\"" ++ (json_escape config ++ text "\"}")

-- `g_setTunFd` is called without a test for null.
unfoldable pub give_fd : ℤ → M NapiResult
give_fd fd = do
  set_bytes (pos 0) (pos 0)
  f ← gets (λ s. s.xray.set_tun_fd)
  call_void f (Arguments.int_argument fd)
  set_tun_running true
  create_result true (text "Xray TUN fd configured.")

-- What `StartXray` makes of the response of the core.
unfoldable pub judge_start : Text → M NapiResult
judge_start response =
    let (ok, message) = invoke_success response (text "") in
    if not ok
    then xray_failed message
    else do set_xray_running true; create_result true (text "Xray core started.")

-- What `StopXray` makes of the response of the core.
unfoldable pub judge_stop : Text → M NapiResult
judge_stop response =
    let (ok, message) = invoke_success response (text "") in
    if not ok then create_result false message else do
      set_xray_running false
      set_tun_running false
      create_result true (text "Xray core stopped.")

module _ (env : Env) where
  unfoldable pub validate_config : List ℕ → M NapiResult
  validate_config args =
      let config = get_string_arg env (arg args 0) in
      if ltb (length args) 1
      then create_result false (text "Missing Xray config JSON.")
      else if is_empty config
      then create_result false (text "Xray config JSON is empty.")
      else if lacks_sections config
      then create_result false (text "Generated Xray config must contain inbounds and outbounds.")
      else do
        loaded ← load_xray env
        message ← gets (λ s. s.last_message)
        if loaded
            then create_result true (text "Native config preflight passed. libXray is available.")
            else create_result false message

  -- `SetTunFd` behind its tests.
  unfoldable pub configure_fd : ℤ → M NapiResult
  configure_fd fd = do
    loaded ← load_xray_core env
    elim loaded [
      | failure message ↦ tun_failed message
      | success _ ↦ do
        inheritable ← make_fd_inheritable env fd
        elim inheritable [ failure message ↦ tun_failed message | success _ ↦ give_fd fd ]
    ]

  unfoldable pub set_tun_fd : List ℕ → M NapiResult
  set_tun_fd args =
      let fd = get_int_arg env (arg args 0) in
      if ltb (length args) 1
      then create_result false (text "Missing TUN fd.")
      else if ltb_ℤ fd (pos 0)
      then create_result false (text "Invalid TUN fd.")
      else do
        running ← gets (λ s. s.xray_running)
        if running
            then create_result false (text "Cannot set TUN fd while Xray is running.")
            else configure_fd fd

  unfoldable pub start_loaded : Text → M NapiResult
  start_loaded config = do
    loaded ← load_xray_core env
    elim loaded [
      | failure message ↦ xray_failed message
      | success _ ↦ do
        invoked ← invoke_xray env (text "runXrayFromJson") (run_payload config)
        elim invoked [
          | failure message ↦ xray_failed message
          | success response ↦ judge_start response
        ]
    ]

  -- `StartXray` behind its tests.
  unfoldable pub run_xray : Text → Text → M NapiResult
  run_xray config work_dir = do
    prepare_xray_asset_dir work_dir
    available ← load_xray env
    message ← gets (λ s. s.last_message)
    if not available then xray_failed message else start_loaded config

  unfoldable pub start_xray : List ℕ → M NapiResult
  start_xray args =
      let config = get_string_arg env (arg args 0) in
      let work_dir = if leb 2 (length args) then get_string_arg env (arg args 1) else text "" in
      if ltb (length args) 1
      then create_result false (text "Missing Xray config JSON.")
      else if is_empty config
      then create_result false (text "Xray config JSON is empty.")
      else do
        running ← gets (λ s. s.xray_running)
        if running
            then create_result true (text "Xray already running.")
            else if is_empty work_dir
            then create_result false (text "Missing native work directory for Xray config.")
            else run_xray config work_dir

  unfoldable pub stop_running_xray : M NapiResult
  stop_running_xray = do
    loaded ← load_xray_core env
    elim loaded [
      | failure message ↦ create_result false message
      | success _ ↦ do
        invoked ← invoke_xray env (text "stopXray") (text "{}")
        elim invoked [
          | failure message ↦ create_result false message
          | success response ↦ judge_stop response
        ]
    ]

  unfoldable pub stop_xray : M NapiResult
  stop_xray = do
    running ← gets (λ s. s.xray_running)
    if not running then already_stopped (text "Xray already stopped.") else stop_running_xray
