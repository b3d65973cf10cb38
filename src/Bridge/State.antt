-- ===== src/Bridge/State.antt =====
-- The globals of entry/src/main/cpp/napi_init.cpp, the environment around the bridge, and the
-- record of what the bridge did to it.
use hey.Prelude.{ℕ, List, [], Bool, false, Option, none, ℤ, pos}
use hey.Codec.Text.{Text, text}

pub data Level : Type 0 where
  info warn error : Level

-- Who allocated a returned string, and so who has to free it: libXray (`CGoFree`) or `malloc`.
pub data Allocator : Type 0 where
  cgo malloc : Allocator

-- The arguments of a call through a function pointer.
pub data Arguments : Type 0 where
  no_arguments : Arguments
  string_argument : Text → Arguments
  int_argument : ℤ → Arguments
  start_arguments : ℤ → Text → ℤ → ℤ → Arguments
  config_argument : Text → ℤ → Arguments

-- One effect on the environment. Pointers are numbers, and a null pointer is `none`.
pub data Event : Type 0 where
  logged : Level → Text → Event
  dlopened : Text → Option ℕ → Event
  dlerror_read : Event
  dlsym_read : ℕ → Text → Event
  env_set : Text → Text → Event
  file_opened : Text → Event
  file_written : Text → Text → Event  -- what `fwrite` has taken
  file_closed : Text → Bool → Event  -- did the rest of what was written reach the file?
  fd_flags_read : ℤ → Event
  fd_flags_set : ℤ → ℕ → Event
  called : ℕ → Arguments → Event
  returned : Allocator → Text → Event
  freed : Allocator → Text → Event
  thread_started : ℕ → Arguments → Event
  thread_detached : ℕ → Event
  thread_joined : Event

-- What the bridge has done so far, the last effect first.
abbrev pub Trace : Type 0
Trace = List Event

-- All that is not in the source: what the system, the loaded libraries and N-API answer. An answer
-- may depend on everything that happened before.
pub record Env : Type 0 where
  pub dlopen : Trace → Text → Option ℕ
  pub dlsym : Trace → ℕ → Text → Option ℕ
  pub dlerror : Trace → Option Text
  pub dli_fname : Option Text  -- `dladdr` of the bridge itself
  pub fopen : Trace → Text → Bool
  pub fwrite : Trace → Text → Text → ℕ  -- how many bytes it has taken
  pub fclose : Trace → Text → Bool  -- does it write out the rest?
  pub errno : Trace → ℕ
  pub strerror : ℕ → Text
  pub get_fd_flags : Trace → ℤ → ℤ
  pub set_fd_flags : Trace → ℤ → ℕ → ℤ
  pub answer : Trace → ℕ → Arguments → Option Text  -- a `char*` result, up to its NUL
  pub status : Trace → ℕ → Arguments → ℤ  -- an `int` result
  pub counter : Trace → ℕ → ℤ  -- an `int64_t` result
  pub hev_counters : Trace → ℕ → record { tx_bytes : ℕ; rx_bytes : ℕ }  -- two of four `size_t`
  pub hev_main_returns : Trace → Bool  -- does the thread that is joined end?
  pub string_utf8 : ℕ → Option Text  -- of an N-API value, `none` if it is no string
  pub value_int32 : ℕ → Option ℤ  -- of an N-API value, `none` if it is no number

-- libxray.so: its handle and symbols.
pub record XrayCore : Type 0 where
  pub handle : Option ℕ
  pub invoke : Option ℕ
  pub free : Option ℕ
  pub set_tun_fd : Option ℕ
  pub query_stats : Option ℕ
  pub test_xray : Option ℕ
  pub version : Option ℕ
  pub count_geo_data : Option ℕ
  pub read_geo_files : Option ℕ
  pub get_free_ports : Option ℕ
  pub convert_share_links_to_xray_json : Option ℕ
  pub convert_xray_json_to_share_links : Option ℕ

-- libsingbox.so
pub record SingboxCore : Type 0 where
  pub handle : Option ℕ
  pub start : Option ℕ
  pub stop : Option ℕ
  pub set_tun_fd : Option ℕ

-- libheytun2socks.so
pub record Tun2SocksCore : Type 0 where
  pub handle : Option ℕ
  pub start : Option ℕ
  pub stop : Option ℕ
  pub upload_bytes : Option ℕ
  pub download_bytes : Option ℕ

-- libhevsocks5tun.so; `thread` is `g_hevThread.joinable()`.
pub record HevCore : Type 0 where
  pub handle : Option ℕ
  pub start : Option ℕ
  pub quit : Option ℕ
  pub stats : Option ℕ
  pub thread : Bool

abbrev pub tun_engine_none : ℕ
tun_engine_none = 0

abbrev pub tun_engine_gvisor : ℕ
tun_engine_gvisor = 1

abbrev pub tun_engine_hev : ℕ
tun_engine_hev = 2

-- The globals `g_…`, and the trace.
pub record Bridge : Type 0 where
  pub xray_running : Bool
  pub tun_running : Bool
  pub upload_bytes : ℤ
  pub download_bytes : ℤ
  pub last_message : Text
  pub xray : XrayCore
  pub singbox_running : Bool
  pub singbox : SingboxCore
  pub tun2socks : Tun2SocksCore
  pub hev : HevCore
  pub tun_engine : ℕ
  pub xray_asset_env_set : Bool
  pub trace : Trace

-- The globals as the process starts.
unfoldable pub initial : Bridge
initial = record {
  xray_running = false;
  tun_running = false;
  upload_bytes = pos 0;
  download_bytes = pos 0;
  last_message = text "Native bridge ready. Waiting for Xray shared library.";
  xray = record {
    handle = none;
    invoke = none;
    free = none;
    set_tun_fd = none;
    query_stats = none;
    test_xray = none;
    version = none;
    count_geo_data = none;
    read_geo_files = none;
    get_free_ports = none;
    convert_share_links_to_xray_json = none;
    convert_xray_json_to_share_links = none;
  };
  singbox_running = false;
  singbox = record { handle = none; start = none; stop = none; set_tun_fd = none };
  tun2socks = record {
    handle = none;
    start = none;
    stop = none;
    upload_bytes = none;
    download_bytes = none;
  };
  hev = record { handle = none; start = none; quit = none; stats = none; thread = false };
  tun_engine = tun_engine_none;
  xray_asset_env_set = false;
  trace = [];
}
