-- ===== src/Tun.antt =====
-- The TUN data plane: `StartTun2Socks`, `StartHevTun`, `StopTun2Socks` and `GetStats` of
-- entry/src/main/cpp/napi_init.cpp.
use hey.Prelude.{ℕ, List, Bool, true, false, ◌&&◌, ◌||◌, not, Option, none, some, pos, ℤ}
use hey.Prelude.{◌==◌, ltb, if◌then◌else◌, is_empty, is_some, length, ltb_ℤ, to_int64}
use hey.Codec.Text.{Text, text, c_str}
use hey.Bridge.State.{
  Env, Event, Level, Arguments, tun_engine_none, tun_engine_gvisor, tun_engine_hev,
}
use hey.Bridge.Monad.{M, success, failure, pure, ◌>>=◌, ◌>>◌, gets, modify, emit, ask, block, crash}
use hey.Bridge.Calls.{NapiResult, create_result, log, make_fd_inheritable, get_string_arg}
use hey.Bridge.Calls.{get_int_arg, arg}
use hey.Loader.Engines.{set_hev, load_tun2socks_core, load_hev_core}
use hey.Xray.{set_bytes, set_tun_running}

unfoldable pub set_tun_engine : ℕ → M (Unit {0})
set_tun_engine engine = modify (λ s. record s { tun_engine = engine })

-- `g_lastMessage = message; LogError(message); return CreateResult(env, false, message);`
unfoldable pub load_failed : Text → M NapiResult
load_failed message = do
  modify (λ s. record s { last_message = message })
  log Level.error message
  create_result false message

-- The ports and packet sizes that `StartTun2Socks` refuses.
unfoldable pub invalid_endpoint : Text → ℤ → ℤ → Bool
invalid_endpoint host port mtu =
    is_empty host
    || (not (ltb_ℤ (pos 0) port)
        || (ltb_ℤ (pos 65535) port || (ltb_ℤ mtu (pos 576) || ltb_ℤ (pos 1500) mtu)))

abbrev pub is_zero : ℤ → Bool
is_zero n = not (ltb_ℤ n (pos 0)) && not (ltb_ℤ (pos 0) n)

pub record RuntimeStats : Type 0 where
  pub upload_bytes : ℤ
  pub download_bytes : ℤ
  pub xray_running : Bool
  pub tun_running : Bool
  pub last_message : Text

-- The thread calls the engine's main, which returns when the engine is told to quit.
unfoldable pub start_hev_thread : Option ℕ → Text → ℤ → M (Unit {0})
start_hev_thread none config fd = crash
start_hev_thread (some f) config fd = do
  emit (Event.thread_started f (Arguments.config_argument config fd))
  set_hev (λ c. record c { thread = true })

-- `if (g_hevQuit != nullptr) g_hevQuit();`
unfoldable pub call_if_some : Option ℕ → M (Unit {0})
call_if_some none = pure tt
call_if_some (some f) = emit (Event.called f Arguments.no_arguments)

unfoldable pub detach_stop : Option ℕ → M (Unit {0})
detach_stop none = crash
detach_stop (some f) = emit (Event.thread_detached f)

module _ (env : Env) where
  -- `if (g_hevThread.joinable()) g_hevThread.join();` waits until the thread's main returns.
  unfoldable pub join_hev_thread : M (Unit {0})
  join_hev_thread = do
    joinable ← gets (λ s. s.hev.thread)
    if not joinable then pure tt else do
      returns ← gets (λ s. env.hev_main_returns s.trace)
      if not returns
          then block
          else do emit Event.thread_joined; set_hev (λ c. record c { thread = false })

  -- An `int` function, called through a pointer.
  unfoldable pub call_status : Option ℕ → Arguments → M ℤ
  call_status none _ = crash
  call_status (some f) args = ask (λ t. env.status t f args) (λ _. Event.called f args)

  -- The call of the engine's start function, behind the load.
  unfoldable pub launch_gvisor : ℤ → Text → ℤ → ℤ → M NapiResult
  launch_gvisor fd host port mtu = do
    start ← gets (λ s. s.tun2socks.start)
    result ← call_status start (Arguments.start_arguments fd (c_str host) port mtu)
    if not (is_zero result)
        then create_result false (text "tun2socks adapter start failed.")
        else do
          set_tun_running true
          set_tun_engine tun_engine_gvisor
          create_result true (text "tun2socks adapter started.")

  -- `StartTun2Socks` behind its tests.
  unfoldable pub run_tun2socks : ℤ → Text → ℤ → ℤ → M NapiResult
  run_tun2socks fd host port mtu = do
    set_bytes (pos 0) (pos 0)
    loaded ← load_tun2socks_core env
    elim loaded [
      | failure message ↦ load_failed message
      | success _ ↦ do
        inheritable ← make_fd_inheritable env fd
        elim inheritable [
          | failure message ↦ create_result false message
          | success _ ↦ launch_gvisor fd host port mtu
        ]
    ]

  unfoldable pub start_tun2socks : List ℕ → M NapiResult
  start_tun2socks args =
      let fd = get_int_arg env (arg args 0) in
      let host = get_string_arg env (arg args 1) in
      let port = get_int_arg env (arg args 2) in
      let mtu = get_int_arg env (arg args 3) in
      if ltb (length args) 4
      then create_result false (text "Missing tun2socks arguments.")
      else if ltb_ℤ fd (pos 0)
      then create_result false (text "Invalid TUN fd.")
      else if invalid_endpoint host port mtu
      then create_result false (text "Invalid tun2socks host, port, or MTU.")
      else do
        running ← gets (λ s. s.tun_running)
        if running
            then create_result true (text "tun2socks already running.")
            else run_tun2socks fd host port mtu

  -- The start of the engine's thread, behind the load.
  unfoldable pub launch_hev : Text → ℤ → M NapiResult
  launch_hev config fd = do
    join_hev_thread
    start ← gets (λ s. s.hev.start)
    start_hev_thread start config fd
    set_tun_running true
    set_tun_engine tun_engine_hev
    create_result true (text "hev tun engine started.")

  -- `StartHevTun` behind its tests.
  unfoldable pub run_hev : Text → ℤ → M NapiResult
  run_hev config fd = do
    set_bytes (pos 0) (pos 0)
    loaded ← load_hev_core env
    elim loaded [
      | failure message ↦ load_failed message
      | success _ ↦ do
        inheritable ← make_fd_inheritable env fd
        elim inheritable [
          | failure message ↦ create_result false message
          | success _ ↦ launch_hev config fd
        ]
    ]

  unfoldable pub start_hev_tun : List ℕ → M NapiResult
  start_hev_tun args =
      let fd = get_int_arg env (arg args 0) in
      let config = get_string_arg env (arg args 1) in
      if ltb (length args) 2
      then create_result false (text "Missing hev tun arguments.")
      else if ltb_ℤ fd (pos 0)
      then create_result false (text "Invalid TUN fd.")
      else if is_empty config
      then create_result false (text "Empty hev tun config.")
      else do
        running ← gets (λ s. s.tun_running)
        if running
            then create_result true (text "tun data plane already running.")
            else run_hev config fd

  unfoldable pub stop_hev : M NapiResult
  stop_hev = do
    quit ← gets (λ s. s.hev.quit)
    call_if_some quit
    join_hev_thread
    create_result true (text "hev tun stop requested.")

  -- The engine's stop function runs on a detached thread.
  unfoldable pub stop_gvisor : M NapiResult
  stop_gvisor = do
    loaded ← load_tun2socks_core env
    elim loaded [
      | failure message ↦ create_result false message
      | success _ ↦ do
        stop ← gets (λ s. s.tun2socks.stop)
        detach_stop stop
        create_result true (text "tun2socks stop requested.")
    ]

  unfoldable pub stop_tun2socks : M NapiResult
  stop_tun2socks = do
    running ← gets (λ s. s.tun_running)
    if not running then create_result true (text "tun data plane already stopped.") else do
      engine ← gets (λ s. s.tun_engine)
      set_tun_engine tun_engine_none
      set_tun_running false
      if engine == tun_engine_hev then stop_hev else stop_gvisor

  unfoldable pub read_hev : Option ℕ → M (Unit {0})
  read_hev none = pure tt
  read_hev (some f) = do
    counters ← ask (λ t. env.hev_counters t f) (λ _. Event.called f Arguments.no_arguments)
    set_bytes (to_int64 counters.tx_bytes) (to_int64 counters.rx_bytes)

  unfoldable pub read_tun2socks : Option ℕ → Option ℕ → M (Unit {0})
  read_tun2socks (some f) (some g) = do
    up ← ask (λ t. env.counter t f) (λ _. Event.called f Arguments.no_arguments)
    modify (λ s. record s { upload_bytes = up })
    down ← ask (λ t. env.counter t g) (λ _. Event.called g Arguments.no_arguments)
    modify (λ s. record s { download_bytes = down })
  read_tun2socks _ _ = pure tt

  -- The counters of hev where it is in use and its stats function is known, and else those of gVisor.
  unfoldable pub refresh_counters : M (Unit {0})
  refresh_counters = do
    s ← gets (λ s. s)
    if s.tun_engine == tun_engine_hev && is_some s.hev.stats
        then read_hev s.hev.stats
        else read_tun2socks s.tun2socks.upload_bytes s.tun2socks.download_bytes

  unfoldable pub get_stats : M RuntimeStats
  get_stats = do
    running ← gets (λ s. s.tun_running)
    if running then refresh_counters else pure tt
    gets (λ s. record {
      upload_bytes = s.upload_bytes;
      download_bytes = s.download_bytes;
      xray_running = s.xray_running || s.singbox_running;
      tun_running = s.tun_running;
      last_message = s.last_message;
    })
