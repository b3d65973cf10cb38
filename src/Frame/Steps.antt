-- ===== src/Frame/Steps.antt =====
-- The effects, the loads of libxray and the calls into the cores keep what a `Frame` keeps.
use hey.Bridge.Keeps.{anything}
use hey.Prelude.{ℕ, ◌≡◌, refl, Bool, true, Option, none, some}
use hey.Codec.Text.{Text, text, c_str}
use hey.Bridge.State.{Env, Event, Level, Bridge, Trace, XrayCore, Allocator, Arguments}
use hey.Bridge.Monad.{emit, ask, modify, crash, ◌>>=◌, ◌>>◌}
use hey.Bridge.Calls
use hey.Bridge.Keeps.{
  Keeps, Keeps->>=, Keeps->>, Keeps-option, Keeps-try, Keeps-if, anything, keeps_rules, Keeps-pure,
  Keeps-gets,
}
use hey.Loader.Xray
use hey.Loader.Singbox
use hey.Loader.Symbols
use hey.Query
use hey.Frame.{Frame, valid, valid_arguments}

module _ {I : Bridge → Type 0} (fr : Frame I) where
  pub Keeps-emit : (e : Event) → valid e ≡ true → Keeps anything I (emit e)
  unfolding emit
  Keeps-emit e v = record { keeps = λ s h. fr.of_event e s v h }

  pub Keeps-ask {ℓ} :
      {A : Type ℓ} (f : Trace → A) (e : A → Event)
      → ((a : A) → valid (e a) ≡ true)
      → Keeps anything I (ask f e)
  unfolding ask
  Keeps-ask f e v = record { keeps = λ s h. fr.of_event (e (f s.trace)) s (v (f s.trace)) h }

  pub Keeps-crash {ℓ} : {A : Type ℓ} → Keeps anything I (crash {A = A})
  unfolding crash
  Keeps-crash = record { keeps = λ s h. tt }

  Keeps-set_xray : (f : XrayCore → XrayCore) → Keeps anything I (Xray.set_xray f)
  unfolding Xray.set_xray modify
  Keeps-set_xray f = record { keeps = λ s h. fr.of_xray (f s.xray) s h }

  pub Keeps-log : (level : Level) (message : Text) → Keeps anything I (Calls.log level message)
  unfolding Calls.log
  Keeps-log level message = Keeps-emit _ refl

  pub Keeps-create_result_quiet :
      (ok : Bool) (message : Text) → Keeps anything I (Calls.create_result_quiet ok message)
  unfolding Calls.create_result_quiet
  Keeps-create_result_quiet ok message = Keeps-pure _

  Keeps-set_env :
      (dir : Text)
      → Keeps anything I (
          emit (Event.env_set (text "XRAY_LOCATION_ASSET") (c_str dir))
          >> modify (λ s. record s { xray_asset_env_set = true }))
  unfolding emit modify ◌>>=◌ ◌>>◌
  Keeps-set_env dir = record { keeps = λ s h. fr.of_env_set (c_str dir) s h }

  pub Keeps-prepare_xray_asset_dir :
      (dir : Text) → Keeps anything I (Xray.prepare_xray_asset_dir dir)
  unfolding Xray.prepare_xray_asset_dir
  Keeps-prepare_xray_asset_dir dir =
      Keeps->>= (Keeps-gets _) λ skip. Keeps-if skip (Keeps-pure _) (Keeps-set_env dir)

  Keeps-cgo_free :
      (free : Option ℕ) (response : Text) → Keeps anything I (Calls.cgo_free free response)
  unfolding Calls.cgo_free
  Keeps-cgo_free none response = Keeps-crash
  Keeps-cgo_free (some f) response = Keeps-emit _ refl

  Keeps-received :
      (env : Env) (method : Text) (raw : Option Text)
      → Keeps anything I (Xray.received env method raw)
  unfolding Xray.received
  Keeps-received env method none = Keeps-pure _
  Keeps-received env method (some response) =
      Keeps->>= (Keeps-gets _) λ free. Keeps->> (Keeps-cgo_free free response) (Keeps-pure _)

  Keeps-build_call_result :
      (raw : Option Text) (message : Text) → Keeps anything I (Query.build_call_result raw message)
  unfolding Query.build_call_result Calls.std_free
  Keeps-build_call_result none message = Keeps-create_result_quiet _ _
  Keeps-build_call_result (some response) message =
      Keeps->> (Keeps-emit _ refl) (Keeps-create_result_quiet _ _)

  module _ (env : Env) where
    pub Keeps-errno_failure {ℓ} :
        {A : Type ℓ} (prefix : Text) → Keeps anything I (Calls.errno_failure env {A = A} prefix)
    unfolding Calls.errno_failure
    Keeps-errno_failure prefix = Keeps-gets _

    pub Keeps-write_text_file :
        (path content : Text) → Keeps anything I (Calls.write_text_file env path content)
    unfolding Calls.write_text_file Calls.close_file
    Keeps-write_text_file path content =
        search (keeps_rules, Keeps-ask, Keeps-errno_failure) depth 20

    pub Keeps-dlsym : (h : ℕ) (name : Text) → Keeps anything I (Calls.dlsym env h name)
    unfolding Calls.dlsym
    Keeps-dlsym h name = Keeps-ask _ _ (λ _. refl)

    pub Keeps-dlerror : Keeps anything I (Calls.dlerror env)
    unfolding Calls.dlerror
    Keeps-dlerror = Keeps-ask _ _ (λ _. refl)

    Keeps-dlopen : (path : Text) → Keeps anything I (Calls.dlopen env path)
    unfolding Calls.dlopen
    Keeps-dlopen path = Keeps-ask _ _ (λ _. refl)

    pub Keeps-open_library : (name : Text) → Keeps anything I (Calls.open_library env name)
    unfolding Calls.open_library
    Keeps-open_library name =
        Keeps->>= (Keeps-dlopen _) λ o. Keeps-option o (Keeps-dlopen _) (λ h. Keeps-pure _)

    Keeps-resolve_xray : (handle : ℕ) → Keeps anything I (Xray.resolve_xray env handle)
    unfolding Xray.resolve_xray
    Keeps-resolve_xray handle = search (keeps_rules, Keeps-dlsym, Keeps-set_xray) depth 30

    Keeps-xray_opened :
        (opened : Option ℕ) (error : Text) → Keeps anything I (Xray.xray_opened env opened error)
    unfolding Xray.xray_opened
    Keeps-xray_opened none error = Keeps-pure _
    Keeps-xray_opened (some handle) error = Keeps-resolve_xray handle

    pub Keeps-load_xray_core : Keeps anything I (Xray.load_xray_core env)
    unfolding Xray.load_xray_core Xray.open_xray
    Keeps-load_xray_core =
        search (keeps_rules, Keeps-open_library, Keeps-dlerror, Keeps-xray_opened) depth 20

    Keeps-load_optional_symbol :
        (name : Text) → Keeps anything I (Symbols.load_optional_symbol env name)
    unfolding Symbols.load_optional_symbol
    Keeps-load_optional_symbol name = Keeps->>= Keeps-load_xray_core λ t.
        Keeps-try t (λ _. Keeps-pure _)
          λ _.
            Keeps->>= (Keeps-gets _)
              λ h. Keeps-option h (Keeps-pure _) λ p. Keeps->>= Keeps-dlerror λ _. Keeps-dlsym _ _

    pub Keeps-lazy_symbol :
        (get : XrayCore → Option ℕ) (put : Option ℕ → XrayCore → XrayCore) (name : Text)
        → Keeps anything I (Symbols.lazy_symbol env get put name)
    unfolding Symbols.lazy_symbol
    Keeps-lazy_symbol get put name = Keeps->>= (Keeps-gets _) λ k.
        Keeps-option k
          (Keeps->>= (Keeps-load_optional_symbol name)
            λ f. Keeps->> (Keeps-set_xray (put f)) (Keeps-pure _))
          (λ p. Keeps-pure _)

    pub Keeps-call_string :
        (a : Allocator) (f : Option ℕ) (args : Arguments)
        → valid_arguments args ≡ true
        → Keeps anything I (Calls.call_string env a f args)
    unfolding Calls.call_string
    Keeps-call_string a none args v = Keeps-crash
    Keeps-call_string a (some f) args v = Keeps->>= (Keeps-ask _ _ (λ _. v)) λ raw.
        Keeps-option raw (Keeps-pure _) (λ response. Keeps->> (Keeps-emit _ refl) (Keeps-pure _))

    pub Keeps-report_call :
        (f : ℕ) (args : Arguments) (message : Text)
        → valid_arguments args ≡ true
        → Keeps anything I (Query.report_call env f args message)
    unfolding Query.report_call
    Keeps-report_call f args message v =
        Keeps->>= (Keeps-call_string _ _ _ v) λ raw. Keeps-build_call_result raw message

    pub Keeps-call_and_report :
        (f : Option ℕ) (missing : Text) (args : Arguments) (message : Text)
        → valid_arguments args ≡ true
        → Keeps anything I (Query.call_and_report env f missing args message)
    unfolding Query.call_and_report
    Keeps-call_and_report none missing args message v = Keeps-create_result_quiet _ _
    Keeps-call_and_report (some f) missing args message v = Keeps-report_call f args message v

    pub Keeps-invoke_xray :
        (method payload : Text) → Keeps anything I (Xray.invoke_xray env method payload)
    unfolding Xray.invoke_xray Xray.invoke_loaded
    Keeps-invoke_xray method payload = Keeps->>= Keeps-load_xray_core λ t.
        Keeps-try t (λ _. Keeps-pure _)
          λ _.
            Keeps->>= (Keeps-gets _)
              λ f. Keeps->>= (Keeps-call_string _ f _ refl) λ raw. Keeps-received env method raw

    Keeps-singbox_opened :
        (opened : Option ℕ) → Keeps anything I (Singbox.singbox_opened env opened)
    unfolding Singbox.singbox_opened
    Keeps-singbox_opened none = Keeps->>= Keeps-dlerror λ e. Keeps-pure _
    Keeps-singbox_opened (some handle) = Keeps-pure _

    pub Keeps-open_singbox : Keeps anything I (Singbox.open_singbox env)
    unfolding Singbox.open_singbox
    Keeps-open_singbox = Keeps->>= (Keeps-open_library _) Keeps-singbox_opened
