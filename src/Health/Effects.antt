-- ===== src/Health/Effects.antt =====
-- Calls into the cores keep the invariant: each returned string is freed, and by its allocator.
use hey.Bridge.Keeps.{Allowed}
use hey.Prelude.{ℕ, ◌≡◌, refl, Option, none, some, arith}
use hey.Codec.Text.{Text}
use hey.Bridge.State.{Env, Bridge, XrayCore, Arguments}
use hey.Bridge.Monad.{M, Try, success, failure, pure, emit, ask, modify, gets, ◌>>=◌, ◌>>◌}
use hey.Bridge.Calls
use hey.Bridge.Keeps.{
  Ensures, Keeps-of_Triple, Triple, Triple-weaken, Triple->>=, Triple-of_Keeps, Keeps, Keeps->>=,
  Keeps->>, Keeps-option, keeps_rules, Keeps-pure, Keeps-gets,
}
use hey.Loader.Xray
use hey.Loader.Symbols
use hey.Query
use hey.Health.Invariant.{Known, any, xray, Healthy, Healthy-any}
use hey.Health.Helpers.{Keeps-create_result_quiet, Keeps-dlsym, Keeps-dlerror}
use hey.Health.Loading.{Ends, Ends-load, Loaded, load_xray_core-Loaded}

-- A computation that keeps the invariant with what is known ends in the invariant.
pub Ends-any {ℓ} :
    {A : Type ℓ} {C : Allowed} {k : Known} {m : M A} → Keeps C (Healthy k) m → Ends C k m
Ends-any h = Triple-weaken (Triple-of_Keeps h) (λ a t i. Healthy-any i)

invoke_loaded_at :
    (env : Env) (C : Allowed) (invoke : Option ℕ) (method payload : Text) (s : Bridge)
    → s.xray.invoke ≡ invoke
    → Healthy xray s
    → Ensures C (Loaded xray) (Xray.invoke_loaded env method payload s)
unfolding Xray.invoke_loaded Calls.call_string Xray.received Calls.cgo_free gets emit ask pure ◌>>=◌
    ◌>>◌
invoke_loaded_at env C (some f) method payload s e h = ground arith
invoke_loaded_at env C none method payload s e h = let (a, b) = h.xray_symbols h.present in cc

module _ (env : Env) {C : Allowed} where
  pub invoke_loaded-Loaded :
      (method payload : Text)
      → Triple C (Healthy xray) (Xray.invoke_loaded env method payload) (Loaded xray)
  invoke_loaded-Loaded method payload = record {
    run = λ s h. invoke_loaded_at env C _ method payload s refl h;
  }

  -- A call of the dispatch entry never goes through a null pointer, and frees its answer.
  pub invoke_xray-Loaded :
      {k : Known} (method payload : Text)
      → Triple C (Healthy k) (Xray.invoke_xray env method payload) (Loaded xray)
  unfolding Xray.invoke_xray
  invoke_xray-Loaded method payload = Triple->>= (load_xray_core-Loaded env) λ r. behind r
    where
      behind :
          (r : Try (Unit {0}))
          → Triple C
              (Loaded xray r)
              (elim r [
                | failure e ↦ pure (failure e)
                | success _ ↦ Xray.invoke_loaded env method payload
              ])
              (Loaded xray)
      behind (failure e) = unfold pure in record { run = λ s h. h }
      behind (success _) = invoke_loaded-Loaded method payload

  -- A lazy symbol is stored beside the required ones.
  pub Keeps-lazy_symbol :
      (get : XrayCore → Option ℕ) (put : Option ℕ → XrayCore → XrayCore) (name : Text)
      → ((f : Option ℕ) (x : XrayCore)
          → (((put f x).handle ≡ x.handle)
              × ((put f x).invoke ≡ x.invoke)
              × ((put f x).free ≡ x.free)))
      → Keeps C (Healthy any) (Symbols.lazy_symbol env get put name)
  unfolding Symbols.lazy_symbol
  Keeps-lazy_symbol get put name same = Keeps->>= (Keeps-gets _) λ known.
      Keeps-option known (Keeps->>= found λ f. Keeps->> (stored f) (Keeps-pure _))
        (λ f. Keeps-pure _)
    where
      resolved :
          (h : Option ℕ)
          → Keeps C (Healthy xray) {A = Option ℕ} (elim h [
            | none ↦ pure none
            | some h ↦ Calls.dlerror env >>= λ _. Calls.dlsym env h name
          ])
      resolved none = Keeps-pure _
      resolved (some h) = search (keeps_rules, Keeps-dlerror env, Keeps-dlsym env)

      found : Keeps C (Healthy any) (Symbols.load_optional_symbol env name)
      found =
          unfold Symbols.load_optional_symbol in
          Keeps-of_Triple (
            Ends-load (load_xray_core-Loaded env) (λ e. Ends-any (Keeps-pure _))
              (λ _. Ends-any (Keeps->>= (Keeps-gets _) resolved)))

      stored : (f : Option ℕ) → Keeps C (Healthy any) (Xray.set_xray (put f))
      stored f =
          unfold Xray.set_xray modify in record { keeps = λ s h. ground (arith, same f s.xray) }

  pub Keeps-report_call :
      {k : Known} (f : ℕ) (args : Arguments) (message : Text)
      → Keeps C (Healthy k) (Query.report_call env f args message)
  unfolding Query.report_call Query.build_call_result Calls.call_string Calls.std_free
      Calls.create_result_quiet emit ask pure ◌>>=◌ ◌>>◌
  Keeps-report_call f args message = record { keeps = λ s h. ground arith }

  pub Keeps-call_and_report :
      {k : Known} (f : Option ℕ) (missing : Text) (args : Arguments) (message : Text)
      → Keeps C (Healthy k) (Query.call_and_report env f missing args message)
  unfolding Query.call_and_report
  Keeps-call_and_report none missing args message = Keeps-create_result_quiet _ _
  Keeps-call_and_report (some f) missing args message = Keeps-report_call f args message
