-- ===== src/Singbox.antt =====
-- The handlers `SingboxProbe`, `SingboxVersion`, `SingboxSetTunFd`, `SingboxStart` and
-- `SingboxStop` of entry/src/main/cpp/napi_init.cpp.
use hey.Prelude.{ℕ, List, ◌++◌, Bool, true, false, ◌&&◌, not, Option, none, some, ℤ, pos}
use hey.Prelude.{ltb, leb, if◌then◌else◌, is_empty, is_some, length, ltb_ℤ}
use hey.Codec.Text.{Text, text}
use hey.Codec.Base64.{base64_encode}
use hey.Codec.Json.{json_escape}
use hey.Codec.Response.{response_ok}
use hey.Bridge.State.{Env, Arguments, Allocator}
use hey.Bridge.Monad.{M, success, failure, pure, ◌>>=◌, ◌>>◌, gets, modify}
use hey.Bridge.Calls.{NapiResult, create_result, create_result_quiet, make_fd_inheritable, dlsym}
use hey.Bridge.Calls.{dlerror, get_string_arg, get_int_arg, call_void, call_string, std_free, arg}
use hey.Loader.Singbox.{open_singbox, load_singbox_core}
use hey.Query.{report_call}
use hey.Xray.{set_bytes, set_tun_running, tun_failed, already_stopped}

unfoldable pub set_singbox_running : Bool → M (Unit {0})
set_singbox_running b = modify (λ s. record s { singbox_running = b })

-- `g_singboxRunning.store(false); return CreateResult(env, false, message);`
unfoldable pub singbox_failed : Text → M NapiResult
singbox_failed message = do set_singbox_running false; create_result false message

unfoldable pub yes_no : Bool → Text
yes_no b = if b then text "yes" else text "no"

unfoldable pub start_request : Text → Text → Text
start_request work_dir config =
    text "{\"basePath\":\""
    ++ (json_escape work_dir ++ (text "\",\"config\":\"" ++ (json_escape config ++ text "\"}")))

unfoldable pub give_singbox_fd : ℤ → M NapiResult
give_singbox_fd fd = do
  set_bytes (pos 0) (pos 0)
  f ← gets (λ s. s.singbox.set_tun_fd)
  call_void f (Arguments.int_argument fd)
  set_tun_running true
  create_result true (text "sing-box TUN fd configured.")

-- What `SingboxStart` makes of the answer.
unfoldable pub judge_singbox_start : Option Text → M NapiResult
judge_singbox_start none = singbox_failed (text "libsingbox start returned null.")
judge_singbox_start (some response) =
    let (ok, message) = response_ok response in
    if not ok
    then singbox_failed message
    else do set_singbox_running true; create_result true (text "sing-box core started.")

-- What `SingboxStop` makes of the answer.
unfoldable pub judge_singbox_stop : Option Text → M NapiResult
judge_singbox_stop none = create_result false (text "libsingbox stop returned null.")
judge_singbox_stop (some response) =
    let (ok, message) = response_ok response in
    if not ok then create_result false message else do
      set_singbox_running false
      set_tun_running false
      create_result true (text "sing-box core stopped.")

-- A call of a `char*` function, and `std::free` behind the copy of its answer.
unfoldable pub call_and_free : Env → Option ℕ → Arguments → M (Option Text)
call_and_free env f args = do
  raw ← call_string env Allocator.malloc f args
  elim raw [ none ↦ pure none | some response ↦ do std_free response; pure (some response) ]

module _ (env : Env) where
  unfoldable pub singbox_probe : M NapiResult
  singbox_probe = do
    opened ← open_singbox env
    elim opened [
      | failure message ↦ create_result_quiet false message
      | success handle ↦ do
        _ ← dlerror env
        version ← dlsym env handle (text "CGoSingBoxVersion")
        start ← dlsym env handle (text "CGoStartSingBox")
        stop ← dlsym env handle (text "CGoStopSingBox")
        set_tun ← dlsym env handle (text "CGoSetTunFd")
        create_result_quiet
            (is_some version && (is_some start && (is_some stop && is_some set_tun)))
            (text "libsingbox.so loaded. symbols: Version="
              ++ (yes_no (is_some version)
                  ++ (text " Start="
                      ++ (yes_no (is_some start)
                          ++ (text " Stop="
                              ++ (yes_no (is_some stop)
                                  ++ (text " SetTunFd=" ++ yes_no (is_some set_tun))))))))
    ]

  unfoldable pub singbox_version : M NapiResult
  singbox_version = do
    opened ← open_singbox env
    elim opened [
      | failure message ↦ create_result_quiet false message
      | success handle ↦ do
        _ ← dlerror env
        version ← dlsym env handle (text "CGoSingBoxVersion")
        elim version [
          | none ↦
              create_result_quiet false (text "CGoSingBoxVersion not exported by libsingbox.so.")
          | some f ↦
              report_call env f Arguments.no_arguments (text "CGoSingBoxVersion returned null.")
        ]
    ]

  -- `SingboxSetTunFd` behind its tests.
  unfoldable pub configure_singbox_fd : ℤ → M NapiResult
  configure_singbox_fd fd = do
    loaded ← load_singbox_core env
    elim loaded [
      | failure message ↦ tun_failed message
      | success _ ↦ do
        inheritable ← make_fd_inheritable env fd
        elim inheritable [ failure message ↦ tun_failed message | success _ ↦ give_singbox_fd fd ]
    ]

  unfoldable pub singbox_set_tun_fd : List ℕ → M NapiResult
  singbox_set_tun_fd args =
      let fd = get_int_arg env (arg args 0) in
      if ltb (length args) 1
      then create_result false (text "Missing TUN fd.")
      else if ltb_ℤ fd (pos 0)
      then create_result false (text "Invalid TUN fd.")
      else do
        running ← gets (λ s. s.singbox_running)
        if running
            then create_result false (text "Cannot set TUN fd while sing-box is running.")
            else configure_singbox_fd fd

  -- `raw = g_singboxStart(…)` and the free of its answer.
  unfoldable pub call_start : Text → M (Option Text)
  call_start request = do
    start ← gets (λ s. s.singbox.start)
    call_and_free env start (Arguments.string_argument (base64_encode request))

  -- `SingboxStart` behind its tests.
  unfoldable pub run_singbox : Text → Text → M NapiResult
  run_singbox config work_dir = do
    loaded ← load_singbox_core env
    elim loaded [
      | failure message ↦ singbox_failed message
      | success _ ↦ do raw ← call_start (start_request work_dir config); judge_singbox_start raw
    ]

  unfoldable pub singbox_start : List ℕ → M NapiResult
  singbox_start args =
      let config = get_string_arg env (arg args 0) in
      let work_dir = if leb 2 (length args) then get_string_arg env (arg args 1) else text "" in
      if ltb (length args) 1
      then create_result false (text "Missing sing-box config JSON.")
      else if is_empty config
      then create_result false (text "sing-box config JSON is empty.")
      else do
        running ← gets (λ s. s.singbox_running)
        if running
            then create_result true (text "sing-box already running.")
            else if is_empty work_dir
            then create_result false (text "Missing native work directory for sing-box config.")
            else run_singbox config work_dir

  -- `raw = g_singboxStop()` and the free of its answer.
  unfoldable pub call_stop : M (Option Text)
  call_stop = do stop ← gets (λ s. s.singbox.stop); call_and_free env stop Arguments.no_arguments

  unfoldable pub stop_running_singbox : M NapiResult
  stop_running_singbox = do
    loaded ← load_singbox_core env
    elim loaded [
      | failure message ↦ create_result false message
      | success _ ↦ do raw ← call_stop; judge_singbox_stop raw
    ]

  unfoldable pub singbox_stop : M NapiResult
  singbox_stop = do
    running ← gets (λ s. s.singbox_running)
    if not running then already_stopped (text "sing-box already stopped.") else stop_running_singbox
