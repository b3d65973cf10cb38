-- ===== src/Examples.antt =====
-- Inputs for the theorems: an environment in which every library loads, one in which the hev engine's
-- main returns just when it was told to quit, states and sequences of calls. The child modules apply the theorems to them.
mod Runs
mod Outcomes
mod Codecs
mod Requests
mod Effects
mod Engines
mod Wrapper
use hey.Prelude.{ℕ, length, List, [], ◌∷◌, ◌++◌, true, false, none, some, pos, ◌==◌, if◌then◌else◌}
use hey.Codec.Text.{Text, text}
use hey.Codec.Base64.{base64_encode}
use hey.Bridge.State.{Env, Bridge, initial, tun_engine_hev}
use hey.Module
use hey.Module.{Call}
use hey.Codec.Response.{error_key}
use hey.Behaviour.DataPlane.{told}

-- Value 1 is a configuration, and any other a directory; each is also a number.
abbrev pub sample_env : Env
sample_env = record {
  dlopen = λ t path. some 100;
  dlsym = λ t handle name. some 200;
  dlerror = λ t. none;
  dli_fname = some (text "/data/lib/libentry.so");
  fopen = λ t path. true;
  fwrite = λ t path content. length content;
  fclose = λ t path. false;
  errno = λ t. 2;
  strerror = λ e. text "No such file or directory";
  get_fd_flags = λ t fd. pos 1;
  set_fd_flags = λ t fd flags. pos 0;
  answer = λ t f args. some (text "{\"success\":true,\"delay\":42}");
  status = λ t f args. pos 0;
  counter = λ t f. pos 7;
  hev_counters = λ t f. record { tx_bytes = 3; rx_bytes = 4 };
  hev_main_returns = λ t. true;
  string_utf8 =
      λ v. if v == 1 then some (text "{\"inbounds\":[],\"outbounds\":[]}") else some (text "/data");
  value_int32 = λ v. some (pos v);
}

abbrev pub stuck_env : Env
stuck_env = record sample_env { hev_main_returns = told 6 }

abbrev pub loaded_state : Bridge
loaded_state = record initial {
  xray = record initial.xray { handle = some 1; invoke = some 2; free = some 3 };
  tun_running = true;
  tun_engine = tun_engine_hev;
  hev = record initial.hev { handle = some 4; start = some 5; quit = some 6; thread = true };
}

abbrev pub sample_calls : List Call
sample_calls =
    record { method = Module.start_xray_method; args = 1 ∷ 2 ∷ [] }
    ∷ record { method = Module.start_hev_tun_method; args = 7 ∷ 1 ∷ [] }
    ∷ record { method = Module.stop_tun2socks_method; args = [] }
    ∷ record { method = Module.stop_xray_method; args = [] }
    ∷ []

abbrev pub plane_calls : List Call
plane_calls =
    record { method = Module.start_xray_method; args = 1 ∷ 2 ∷ [] }
    ∷ record { method = Module.start_hev_tun_method; args = 7 ∷ 1 ∷ [] }
    ∷ record { method = Module.start_tun2socks_method; args = 7 ∷ 2 ∷ 1080 ∷ 1400 ∷ [] }
    ∷ []

-- "Hey!" and a line with a quote, a backslash and a newline.
abbrev pub hey_bytes : Text
hey_bytes = 72 ∷ 101 ∷ 121 ∷ 33 ∷ []

abbrev pub line : Text
line = 97 ∷ 34 ∷ 92 ∷ 10 ∷ []

abbrev pub sample_port : ℕ
sample_port = 18085

-- A failure whose message is `a"b`, written with its escape.
abbrev pub failed_response : Text
failed_response = error_key ++ (97 ∷ 92 ∷ 34 ∷ 98 ∷ 34 ∷ [])

abbrev pub answering_env : Env
answering_env = record sample_env { answer = λ t f args. some (base64_encode (123 ∷ 125 ∷ [])) }

abbrev pub queried_state : Bridge
queried_state = record initial { xray = record initial.xray { query_stats = some 9 } }

abbrev pub counting_state : Bridge
counting_state = record loaded_state { hev = record loaded_state.hev { stats = some 8 } }
