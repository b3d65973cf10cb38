-- ===== src/Examples/Effects.antt =====
-- The theorems on calls that reach a library, a file or an engine at concrete inputs.
use hey.Bridge.Keeps.{no_stop}
use hey.Prelude.{
  ◌≡◌, refl, [], ◌∷◌, ◌++◌, true, false, some, pos, arith, not, is_some, ◌||◌, length, leb,
}
use hey.Codec.Text.{Text, text, find, starts_with, c_str, contains}
use hey.Codec.Base64.{base64_encode}
use hey.Bridge.State.{Level, Event, Arguments, initial, tun_engine_none}
use hey.Bridge.Monad.{done, gets, pure, ◌>>=◌}
use hey.Bridge.Keeps.{Ensures}
use hey.Xray
use hey.Tun
use hey.Query
use hey.Behaviour.Reports.{after_call, counters, query_text-answer, get_stats-counters}
use hey.Behaviour.Files.{Written, dir_name-append, write_text_file-Written}
use hey.Behaviour.TestConfig.{Tested, test_with-Tested}
use hey.Loader.Symbols
use hey.Bridge.Calls
use hey.Behaviour.Cores.{reports_success, start_arguments, start_xray-reports_success}
use hey.Behaviour.Crash.{is_crashed, configure_fd_crash}
use hey.Behaviour.DataPlane.{is_blocked, said, hev_stopped, xray_stopped, plane_stopped}
use hey.Behaviour.DataPlane.{stop_tun2socks-hev, stop_tun2socks-stop_xray, run_hev_blocked}
use hey.Examples.{
  sample_env, stuck_env, loaded_state, hey_bytes, line, answering_env, queried_state,
  counting_state,
}

configure_fd_crash_example :
    is_crashed (Xray.configure_fd sample_env (pos 7) loaded_state)
    ≡ not (is_some loaded_state.xray.set_tun_fd)
configure_fd_crash_example =
    configure_fd_crash sample_env loaded_state (pos 7) (λ t. (1, refl, λ k u. refl)) refl

stop_tun2socks-hev_example :
    Tun.stop_tun2socks sample_env loaded_state
    ≡ done hev_stopped (
        said Level.info hev_stopped (record loaded_state {
          tun_running = false;
          tun_engine = tun_engine_none;
          hev = record loaded_state.hev { thread = false };
          trace = Event.thread_joined ∷ Event.called 6 Arguments.no_arguments ∷ loaded_state.trace;
        }))
stop_tun2socks-hev_example = stop_tun2socks-hev sample_env loaded_state 6 refl refl refl refl refl

stop_tun2socks-stop_xray_example :
    (Xray.stop_xray sample_env >>= λ _. Tun.stop_tun2socks sample_env) loaded_state
    ≡ done plane_stopped (
        said Level.info plane_stopped
          (said Level.info xray_stopped (record loaded_state { tun_running = false })))
unfolding initial
stop_tun2socks-stop_xray_example = stop_tun2socks-stop_xray sample_env loaded_state refl

run_hev_blocked_example : is_blocked (Tun.run_hev stuck_env hey_bytes (pos 7) loaded_state) ≡ true
unfolding initial
run_hev_blocked_example =
    run_hev_blocked stuck_env loaded_state 6 hey_bytes (pos 7) (λ t. (1, refl, λ k u. refl))
      (λ t. refl) refl refl refl refl

query_text-answer_example :
    Query.query_text answering_env
      (2 ∷ [])
      []
      []
      (Symbols.load_query_stats answering_env)
      []
      []
      queried_state
    ≡ done
        (record { ok = false; message = 123 ∷ 125 ∷ [] })
        (after_call 9
          (Arguments.string_argument (base64_encode (text "/data")))
          (base64_encode (123 ∷ 125 ∷ []))
          queried_state)
unfolding Symbols.load_query_stats Symbols.lazy_symbol Calls.get_string_arg contains find
    starts_with text gets pure ◌>>=◌
query_text-answer_example =
    query_text-answer answering_env (2 ∷ []) [] [] [] [] (123 ∷ 125 ∷ [])
      (Symbols.load_query_stats answering_env) 9 queried_state queried_state refl refl refl
      (omega arith, (omega arith, tt)) refl refl

get_stats-counters_example :
    Ensures no_stop
      (λ r t.
        (r ≡ record {
          upload_bytes = (counters sample_env counting_state).0;
          download_bytes = (counters sample_env counting_state).1;
          xray_running = counting_state.xray_running || counting_state.singbox_running;
          tun_running = counting_state.tun_running;
          last_message = counting_state.last_message;
        })
        × (t ≡ record counting_state {
          upload_bytes = r.upload_bytes;
          download_bytes = r.download_bytes;
          trace = t.trace;
        }))
      (Tun.get_stats sample_env counting_state)
get_stats-counters_example = get_stats-counters sample_env counting_state

leb_self : (s : Text) → leb (length s) (length s) ≡ true
leb_self s = ground arith

dir_name-append_example : Calls.dir_name (text "/data" ++ (b'/' ∷ text "a")) ≡ text "/data"
unfolding text
dir_name-append_example = dir_name-append (text "/data") (text "a") ((λ e. cc), tt)

write_text_file-Written_example :
    Ensures no_stop
      (λ r t. Written (c_str hey_bytes) line initial.trace r t.trace)
      (Calls.write_text_file sample_env hey_bytes line initial)
write_text_file-Written_example =
    write_text_file-Written sample_env hey_bytes line initial (λ t path content. leb_self content)

test_with-Tested_example :
    Ensures no_stop
      (λ r t. Tested 9 line hey_bytes initial.trace r t.trace)
      (Query.test_with sample_env (some 9) line hey_bytes initial)
test_with-Tested_example =
    test_with-Tested sample_env 9 line hey_bytes initial (λ t path content. leb_self content)

start_xray-reports_success_example :
    Ensures no_stop
      (λ r t.
        (r.ok
          ≡ reports_success (
              sample_env.answer loaded_state.trace 2
                (start_arguments (Calls.get_string_arg sample_env 1))))
        × (t.xray_running
            ≡ reports_success (
                sample_env.answer loaded_state.trace 2
                  (start_arguments (Calls.get_string_arg sample_env 1)))))
      (Xray.start_xray sample_env (1 ∷ 2 ∷ []) loaded_state)
unfolding initial Calls.get_string_arg text
start_xray-reports_success_example =
    start_xray-reports_success sample_env loaded_state 2 3 1 2 [] refl refl refl refl refl refl
