-- ===== src/Behaviour/Reports.antt =====
-- What a query tells ArkTS of a core's answer, and what `getStats` reports.
use hey.Prelude.{
  ℕ, ◌≡◌, refl, ap, ◌∙◌, List, [], ◌∷◌, Bool, true, false, ◌||◌, ◌==◌, Option, some, ltb, length,
  is_empty, All, arith, ℤ, to_int64,
}
use hey.Codec.Text.{Text, contains}
use hey.Codec.Base64.{base64_encode}
use hey.Codec.Base64.Groups.{IsByte}
use hey.Codec.Base64.RoundTrip.{base64_decode-base64_encode}
use hey.Codec.Response.{success_key}
use hey.Bridge.State
use hey.Bridge.State.{Env, Event, Arguments, Allocator, Bridge, tun_engine_hev}
use hey.Bridge.Monad.{
  M, Outcome, done, crashed, blocked, pure, gets, modify, ask, emit, ◌>>=◌, ◌>>◌,
}
use hey.Bridge.Calls
use hey.Query
use hey.Tun
use hey.Xray as Handlers
use hey.Bridge.Keeps.{Ensures, no_stop}

-- The answer of a core that is JSON in base64 is the JSON.
decoded_response-base64 :
    (body : Text)
    → All IsByte body
    → contains body (b'{' ∷ []) ≡ true
    → Query.decoded_response (base64_encode body) ≡ body
unfolding Query.decoded_response
decoded_response-base64 body bytes json = rw (base64_decode-base64_encode body bytes) (rw json refl)

-- A state after a call of `f`, whose answer was copied and freed.
abbrev pub after_call : ℕ → Arguments → Text → Bridge → Bridge
after_call f args response s = record s {
  trace =
      State.freed State.malloc response
      ∷ State.returned State.malloc response
      ∷ State.called f args
      ∷ s.trace;
}

report_call-base64 :
    (env : Env) (f : ℕ) (args : Arguments) (message body : Text) (s : Bridge)
    → All IsByte body
    → contains body (b'{' ∷ []) ≡ true
    → env.answer s.trace f args ≡ some (base64_encode body)
    → Query.report_call env f args message s
      ≡ done
          (record { ok = contains body success_key; message = body })
          (after_call f args (base64_encode body) s)
unfolding Query.report_call Query.build_call_result Calls.call_string Calls.std_free
    Calls.create_result_quiet ask emit pure ◌>>=◌ ◌>>◌
report_call-base64 env f args message body s bytes json answer =
    rw answer (rw (decoded_response-base64 body bytes json) refl)

bind-done {ℓ κ} :
    {A : Type ℓ} {B : Type κ} (m : M A) (f : A → M B) {a : A} {s t : Bridge}
    → m s ≡ done a t
    → (m >>= f) s ≡ f a t
unfolding ◌>>=◌
bind-done {A} {B} m f h =
    ap
      (λ (o : Outcome A). elim o as (λ x. Outcome B) [
        | done x u ↦ f x u
        | crashed u ↦ crashed u
        | blocked u ↦ blocked u
      ])
      h

-- A query of one string, with an argument that is not empty and a symbol `f` that its load finds: where
-- the core answers with JSON in base64, ArkTS gets the JSON whole, and a success just where it has
-- `"success":true`; the core gets the argument in base64, and its answer is freed once.
pub query_text-answer :
    (env : Env) (args : List ℕ) (missing empty unavailable null_message body : Text)
    (load : M (Option ℕ)) (f : ℕ) (s t : Bridge)
    → ltb (length args) 1 ≡ false
    → is_empty (Calls.get_string_arg env (Calls.arg args 0)) ≡ false
    → load s ≡ done (some f) t
    → All IsByte body
    → contains body (b'{' ∷ []) ≡ true
    → env.answer t.trace f
        (State.string_argument (base64_encode (Calls.get_string_arg env (Calls.arg args 0))))
      ≡ some (base64_encode body)
    → Query.query_text env args missing empty load unavailable null_message s
      ≡ done
          (record { ok = contains body success_key; message = body })
          (after_call f
            (State.string_argument (base64_encode (Calls.get_string_arg env (Calls.arg args 0))))
            (base64_encode body)
            t)
unfolding Query.query_text Query.call_and_report ◌>>=◌
query_text-answer env args missing empty unavailable null_message body load f s t given full loaded
      bytes json answer =
    rw (given, full)
      (bind-done load _ loaded ∙ report_call-base64 env f _ null_message body t bytes json answer)

-- The counters after `getStats`: those of hev, if it is in use and has the symbol for them, and else those
-- of gVisor, if it has the symbols; the old ones where there are none, or no data plane runs.
abbrev pub counted :
    Env → State.Trace → Bool → Bool → Option ℕ → Option ℕ → Option ℕ → ℤ × ℤ → ℤ × ℤ
counted env t true true (some f) up down old =
    (to_int64 (env.hev_counters t f).tx_bytes, to_int64 (env.hev_counters t f).rx_bytes)
counted env t true hev stats (some f) (some g) old =
    (env.counter t f, env.counter (State.called f State.no_arguments ∷ t) g)
counted env t running hev stats up down old = old

abbrev pub counters : Env → Bridge → ℤ × ℤ
counters env s =
    counted env s.trace s.tun_running (s.tun_engine == tun_engine_hev) s.hev.stats
      s.tun2socks.upload_bytes s.tun2socks.download_bytes (s.upload_bytes, s.download_bytes)

-- `getStats` returns and reports the `counters`, whether a core and whether the data plane count as
-- running, and the last message; it stores the counters and changes no other global. While the data
-- plane counts as running, the counters are hev's where hev is in use and its stats function is known,
-- and otherwise gVisor's where both of its counter functions are known, also where hev is in use
-- without a stats function or no engine is in use; in every other case they are the stored ones.
pub get_stats-counters :
    (env : Env) (s : Bridge)
    → Ensures no_stop
        (λ r t.
          (r ≡ record {
            upload_bytes = (counters env s).0;
            download_bytes = (counters env s).1;
            xray_running = s.xray_running || s.singbox_running;
            tun_running = s.tun_running;
            last_message = s.last_message;
          })
          × (t ≡ record s {
            upload_bytes = r.upload_bytes;
            download_bytes = r.download_bytes;
            trace = t.trace;
          }))
        (Tun.get_stats env s)
unfolding Tun.get_stats Tun.refresh_counters Tun.read_hev Tun.read_tun2socks Handlers.set_bytes gets
    modify ask pure ◌>>=◌ ◌>>◌
get_stats-counters env s = ground arith
