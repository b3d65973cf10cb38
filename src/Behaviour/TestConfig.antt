-- ===== src/Behaviour/TestConfig.antt =====
-- What `TestXrayConfig` has done once the symbol is there: the core is asked about the file that was
-- written before.
use hey.Prelude.{ℕ, ◌≡◌, refl, ◌∷◌, ◌++◌, Bool, false, Option, none, some}
use hey.Codec.Text.{Text, text, c_str, contains}
use hey.Codec.Base64.{base64_encode}
use hey.Codec.Response.{success_key}
use hey.Bridge.State
use hey.Bridge.State.{Env, Event, Trace, Bridge, Arguments}
use hey.Bridge.Monad.{Try, success, failure, pure, emit, ask, ◌>>=◌, ◌>>◌}
use hey.Bridge.Keeps.{Ensures, no_stop, Triple, Triple->>=}
use hey.Bridge.Calls
use hey.Bridge.Calls.{NapiResult}
use hey.Query
use hey.Behaviour.Files.{Written, Bounded, taken, write_text_file-Written}

abbrev pub config_path : Text → Text
config_path work_dir = work_dir ++ (text "/" ++ Query.test_config_file)

abbrev pub wrote : Text → Text → Bool → Trace → Trace
wrote path config flushed before =
    State.file_closed (c_str path) flushed
    ∷ State.file_written (c_str path) config
    ∷ State.file_opened (c_str path)
    ∷ before

abbrev pub request : Text → Arguments
request work_dir =
    State.string_argument (base64_encode (Query.test_request work_dir (config_path work_dir)))

-- The result and what happened since `before`.
pub data Tested (f : ℕ) (config work_dir : Text) (before : Trace)
    : NapiResult → Trace → Type 0 where
  unwritten :
      {message : Text} {t : Trace}
      → Written (c_str (config_path work_dir)) config before (failure message) t
      → Tested f config work_dir before (record { ok = false; message = message }) t
  unanswered :
      {message : Text} (flushed : Bool)
      → Tested f config work_dir before
          (record { ok = false; message = message })
          (State.called f (request work_dir) ∷ wrote (config_path work_dir) config flushed before)
  answered :
      (response : Text) (flushed : Bool)
      → Tested f config work_dir before
          (record {
            ok = contains (Query.decoded_response response) success_key;
            message = Query.decoded_response response;
          })
          (State.freed State.malloc response
            ∷ State.returned State.malloc response
            ∷ State.called f (request work_dir)
            ∷ wrote (config_path work_dir) config flushed before)

wrote-all :
    (path : Text) {config : Text} {before t : Trace} {x : Unit {0}}
    → Written (c_str path) config before (success x) t
    → (flushed : Bool) × (t ≡ wrote path config flushed before)
wrote-all path (taken flushed) = (flushed, refl)

module _ (env : Env) (f : ℕ) (config work_dir : Text) (before : Trace) where
  -- The call behind the write.
  asked :
      (message : Text) (flushed : Bool) (s : Bridge) (a : Option Text)
      → s.trace ≡ wrote (config_path work_dir) config flushed before
      → env.answer s.trace f (request work_dir) ≡ a
      → Ensures no_stop
          (λ r t. Tested f config work_dir before r t.trace)
          (Query.report_call env f (request work_dir) message s)
  unfolding Query.report_call Query.build_call_result Calls.call_string Calls.std_free
      Calls.create_result_quiet ask emit pure ◌>>=◌ ◌>>◌
  asked message flushed s none e h = rw h (rw e (unanswered flushed))
  asked message flushed s (some response) e h = rw h (rw e (answered response flushed))

  Triple-write :
      Bounded env
      → Triple no_stop
          (λ s. s.trace ≡ before)
          (Calls.write_text_file env (config_path work_dir) config)
          (λ r t. Written (c_str (config_path work_dir)) config before r t.trace)
  Triple-write bounded = record {
    run = λ s e. rw (← e) (write_text_file-Written env (config_path work_dir) config s bounded);
  }

  judged :
      (written : Try (Unit {0}))
      → Triple no_stop
          (λ t. Written (c_str (config_path work_dir)) config before written t.trace)
          (elim written [
            | failure message ↦ Calls.create_result_quiet false message
            | success _ ↦
                Query.report_call env f (request work_dir) (text "CGoTestXray returned null.")
          ])
          (λ r t. Tested f config work_dir before r t.trace)
  unfolding Calls.create_result_quiet pure
  judged (failure message) = record { run = λ s w. unwritten w }
  judged (success x) = record {
    run = λ s w. let (flushed, whole) = wrote-all _ w in asked _ flushed s _ whole refl;
  }

-- With the symbol `f`, and where `fwrite` takes no more bytes than it is given, the test of a
-- configuration returns, and has done what `Tested` says: the file could not be opened or `fwrite` took
-- less than the configuration, and the core was not asked; or `fwrite` took the whole configuration and
-- the file was closed, whether or not the close wrote all of it out, and then the core was asked about
-- the path of that file, and its answer is freed and decides the result.
pub test_with-Tested :
    (env : Env) (f : ℕ) (config work_dir : Text) (s : Bridge)
    → Bounded env
    → Ensures no_stop
        (λ r t. Tested f config work_dir s.trace r t.trace)
        (Query.test_with env (some f) config work_dir s)
unfolding Query.test_with
test_with-Tested env f config work_dir s bounded =
    (Triple->>= (Triple-write env f config work_dir s.trace bounded)
        (judged env f config work_dir s.trace)).run
      s refl
