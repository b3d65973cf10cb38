-- ===== src/Behaviour/Cores.antt =====
-- What `startXray` makes of the answer of libXray.
use hey.Prelude.{ℕ, List, ◌≡◌, refl, Bool, true, false, ◌&&◌, Option, none, some, is_some, arith}
use hey.Prelude.{◌∷◌, ◌++◌, ◌∙◌, Bool-cases, inl, inr, ltb, leb, length, is_empty}
use hey.Codec.Text.{Text, text, c_str, contains}
use hey.Codec.Response.{success_key, invoke_success}
use hey.Bridge.State
use hey.Bridge.State.{Env, Bridge}
use hey.Bridge.Monad.{M, Try, done, success, failure, pure, gets, modify, emit, ask, ◌>>=◌, ◌>>◌}
use hey.Bridge.Keeps.{Ensures, no_stop}
use hey.Bridge.Calls
use hey.Bridge.Calls.{NapiResult}
use hey.Loader.Xray as Loader
use hey.Xray
use hey.Behaviour.Crash.{load_xray_core_again, >>=-done, >>-done}

-- Does the answer of the core report success? No answer does not.
abbrev pub reports_success : Option Text → Bool
reports_success none = false
reports_success (some response) = contains response success_key

abbrev pub XrayLoaded : Bridge → Type 0
XrayLoaded s = (is_some s.xray.handle && (is_some s.xray.invoke && is_some s.xray.free)) ≡ true

-- `startXray` behind the response.
judge_start-contains :
    (response : Text) (s : Bridge)
    → Ensures no_stop
        (λ r t.
          (r.ok ≡ contains response success_key) × (t.xray_running ≡ contains response success_key))
        (Xray.judge_start response s)
unfolding Xray.judge_start Xray.xray_failed Xray.set_xray_running Calls.create_result Calls.log
    modify emit pure ◌>>=◌ ◌>>◌ invoke_success
judge_start-contains response s =
    elim (Bool-cases (contains response success_key))
      as (λ x.
        Ensures no_stop
          (λ r t.
            (r.ok ≡ contains response success_key)
            × (t.xray_running ≡ contains response success_key))
          (Xray.judge_start response s)) [
            | inl e ↦ rw (Xray.judge_start, invoke_success, e) (refl, refl)
            | inr e ↦ rw (Xray.judge_start, invoke_success, e) (refl, refl)
          ]

abbrev tried : Text → Option Text → Try Text
tried method none = failure (text "libXray CGoInvoke(" ++ (method ++ text ") returned null."))
tried method (some response) = success response

abbrev pub arguments : Text → Text → State.Arguments
arguments method payload = State.string_argument (c_str (Loader.invoke_request method payload))

abbrev after_answer : ℕ → State.Arguments → Option Text → Bridge → Bridge
after_answer f args none s = record s { trace = State.called f args ∷ s.trace }
after_answer f args (some response) s = record s {
  trace =
      State.freed State.cgo response
      ∷ State.returned State.cgo response
      ∷ State.called f args
      ∷ s.trace;
}

invoke_loaded-answer :
    (env : Env) (method payload : Text) (s : Bridge) (f g : ℕ) (a : Option Text)
    → s.xray.invoke ≡ some f
    → s.xray.free ≡ some g
    → env.answer s.trace f (arguments method payload) ≡ a
    → Loader.invoke_loaded env method payload s
      ≡ done (tried method a) (after_answer f (arguments method payload) a s)
unfolding Loader.invoke_loaded Loader.received Calls.call_string Calls.cgo_free gets pure emit ask
    ◌>>=◌ ◌>>◌
invoke_loaded-answer env method payload s f g none called free answer = rw (called, answer) refl
invoke_loaded-answer env method payload s f g (some response) called free answer =
    rw (called, answer, free) refl

-- One call of a loaded core.
invoke_xray-answer :
    (env : Env) (method payload : Text) (s : Bridge) (f g : ℕ) (a : Option Text)
    → XrayLoaded s
    → s.xray.invoke ≡ some f
    → s.xray.free ≡ some g
    → env.answer s.trace f (arguments method payload) ≡ a
    → Loader.invoke_xray env method payload s
      ≡ done (tried method a) (after_answer f (arguments method payload) a s)
unfolding Loader.invoke_xray
invoke_xray-answer env method payload s f g a loaded called free answer =
    >>=-done _ _ s (load_xray_core_again env s loaded)
    ∙ invoke_loaded-answer env method payload s f g a called free answer

abbrev pub start_arguments : Text → State.Arguments
start_arguments config = arguments (text "runXrayFromJson") (Xray.run_payload config)

-- What `startXray` does behind the answer.
abbrev started : Option Text → M NapiResult
started none =
    Xray.xray_failed
      (text "libXray CGoInvoke(" ++ (text "runXrayFromJson" ++ text ") returned null."))
started (some response) = Xray.judge_start response

start_loaded-answer :
    (env : Env) (s : Bridge) (f g : ℕ) (config : Text) (a : Option Text)
    → XrayLoaded s
    → s.xray.invoke ≡ some f
    → s.xray.free ≡ some g
    → env.answer s.trace f (start_arguments config) ≡ a
    → Xray.start_loaded env config s ≡ started a (after_answer f (start_arguments config) a s)
unfolding Xray.start_loaded
start_loaded-answer env s f g config none loaded called free answer =
    >>=-done _ _ s (load_xray_core_again env s loaded)
    ∙ >>=-done _ _ s (
        invoke_xray-answer env (text "runXrayFromJson") (Xray.run_payload config) s f g none loaded
          called free answer)
start_loaded-answer env s f g config (some response) loaded called free answer =
    >>=-done _ _ s (load_xray_core_again env s loaded)
    ∙ >>=-done _ _ s (
        invoke_xray-answer env (text "runXrayFromJson") (Xray.run_payload config) s f g
          (some response) loaded called free answer)

started-reports_success :
    (a : Option Text) (s : Bridge)
    → Ensures no_stop
        (λ r t. (r.ok ≡ reports_success a) × (t.xray_running ≡ reports_success a))
        (started a s)
unfolding Xray.xray_failed Xray.set_xray_running Calls.create_result Calls.log modify emit pure
    ◌>>=◌ ◌>>◌
started-reports_success none s = (refl, refl)
started-reports_success (some response) s = judge_start-contains response s

prepare-loaded :
    (work_dir : Text) (s : Bridge)
    → XrayLoaded s
    → Loader.prepare_xray_asset_dir work_dir s ≡ done tt s
unfolding Loader.prepare_xray_asset_dir gets pure ◌>>=◌
prepare-loaded work_dir s loaded = ground arith

load_xray-loaded : (env : Env) (s : Bridge) → XrayLoaded s → Loader.load_xray env s ≡ done true s
unfolding Loader.load_xray pure
load_xray-loaded env s loaded = >>=-done _ _ s (load_xray_core_again env s loaded)

run_xray-answer :
    (env : Env) (s : Bridge) (config work_dir : Text)
    → XrayLoaded s
    → Xray.run_xray env config work_dir s ≡ Xray.start_loaded env config s
unfolding Xray.run_xray gets
run_xray-answer env s config work_dir loaded =
    >>-done _ _ s (prepare-loaded work_dir s loaded)
    ∙ >>=-done _ _ s (load_xray-loaded env s loaded)
    ∙ >>=-done _ _ s refl

at_least_two :
    (c d : ℕ) (rest : List ℕ)
    → (ltb (length (c ∷ d ∷ rest)) 1 ≡ false) × (leb 2 (length (c ∷ d ∷ rest)) ≡ true)
at_least_two c d rest = (ground arith, ground arith)

start_xray-idle :
    (env : Env) (s : Bridge) (c d : ℕ) (rest : List ℕ)
    → s.xray_running ≡ false
    → is_empty (Calls.get_string_arg env c) ≡ false
    → is_empty (Calls.get_string_arg env d) ≡ false
    → Xray.start_xray env (c ∷ d ∷ rest) s
      ≡ Xray.run_xray env (Calls.get_string_arg env c) (Calls.get_string_arg env d) s
unfolding Xray.start_xray gets ◌>>=◌
start_xray-idle env s c d rest idle full placed =
    let (several, two) = at_least_two c d rest in simp (several, two, full, idle, placed) refl

-- With libXray loaded and Xray not running, `startXray` with a configuration and a directory, neither
-- empty, returns, and both its result and whether Xray then counts as running are what the core
-- answers to `runXrayFromJson` with this configuration: whether the answer reports a success, and
-- false where there is no answer.
pub start_xray-reports_success :
    (env : Env) (s : Bridge) (f g c d : ℕ) (rest : List ℕ)
    → XrayLoaded s
    → s.xray.invoke ≡ some f
    → s.xray.free ≡ some g
    → s.xray_running ≡ false
    → is_empty (Calls.get_string_arg env c) ≡ false
    → is_empty (Calls.get_string_arg env d) ≡ false
    → Ensures no_stop
        (λ r t.
          (r.ok
            ≡ reports_success (env.answer s.trace f (start_arguments (Calls.get_string_arg env c))))
          × (t.xray_running
              ≡ reports_success
                  (env.answer s.trace f (start_arguments (Calls.get_string_arg env c)))))
        (Xray.start_xray env (c ∷ d ∷ rest) s)
start_xray-reports_success env s f g c d rest loaded called free idle full placed =
    let config = Calls.get_string_arg env c in
    let a = env.answer s.trace f (start_arguments config) in
    rw
      (start_xray-idle env s c d rest idle full placed
        ∙ run_xray-answer env s config (Calls.get_string_arg env d) loaded
        ∙ start_loaded-answer env s f g config a loaded called free refl)
      (started-reports_success a (after_answer f (start_arguments config) a s))
