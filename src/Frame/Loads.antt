-- ===== src/Frame/Loads.antt =====
-- The loads of the engines and of the second core, and the results that set the last message.
use hey.Prelude.{ℕ, ◌≡◌, refl, Bool, true, false, Option, none, some, ℤ, pos, negsuc, ltb_ℤ, arith}
use hey.Codec.Text.{Text}
use hey.Bridge.State.{Env, Bridge, SingboxCore, Tun2SocksCore, HevCore, Arguments}
use hey.Bridge.Monad.{Try, success, failure, modify}
use hey.Bridge.Calls
use hey.Bridge.Keeps.{
  Keeps, anything, Keeps->>=, Keeps->>, Keeps-option, Keeps-try, Keeps-if, Keeps-pure, Keeps-gets,
  keeps_rules,
}
use hey.Loader.Xray
use hey.Loader.Engines
use hey.Loader.Singbox
use hey.Xray as Handlers
use hey.Tun
use hey.Singbox as SingboxHandlers
use hey.Frame.{Frame, Loud, valid_arguments}
use hey.Frame.Steps

module _ {I : Bridge → Type 0} (fr : Frame I) where
  Keeps-set_singbox : (f : SingboxCore → SingboxCore) → Keeps anything I (Singbox.set_singbox f)
  unfolding Singbox.set_singbox modify
  Keeps-set_singbox f = record { keeps = λ s h. fr.of_singbox (f s.singbox) s h }

  Keeps-set_tun2socks :
      (f : Tun2SocksCore → Tun2SocksCore) → Keeps anything I (Engines.set_tun2socks f)
  unfolding Engines.set_tun2socks modify
  Keeps-set_tun2socks f = record { keeps = λ s h. fr.of_tun2socks (f s.tun2socks) s h }

  Keeps-set_hev :
      (f : HevCore → HevCore)
      → ((c : HevCore) → (f c).thread ≡ c.thread)
      → Keeps anything I (Engines.set_hev f)
  unfolding Engines.set_hev modify
  Keeps-set_hev f e = record { keeps = λ s h. fr.of_hev (f s.hev) s (e s.hev) h }

  module _ (env : Env) where
    Keeps-resolve_tun2socks : (handle : ℕ) → Keeps anything I (Engines.resolve_tun2socks env handle)
    unfolding Engines.resolve_tun2socks
    Keeps-resolve_tun2socks handle =
        search (keeps_rules, Steps.Keeps-dlsym fr env, Keeps-set_tun2socks) depth 30

    Keeps-tun2socks_opened :
        (opened : Option ℕ) (error : Text)
        → Keeps anything I (Engines.tun2socks_opened env opened error)
    unfolding Engines.tun2socks_opened
    Keeps-tun2socks_opened none error = Keeps-pure _
    Keeps-tun2socks_opened (some handle) error = Keeps-resolve_tun2socks handle

    pub Keeps-load_tun2socks_core : Keeps anything I (Engines.load_tun2socks_core env)
    unfolding Engines.load_tun2socks_core Engines.open_tun2socks
    Keeps-load_tun2socks_core = Keeps->>= (Keeps-gets _) λ loaded. Keeps-if loaded (Keeps-pure _) (
        Keeps->>= (Steps.Keeps-open_library fr env _)
          λ o. Keeps->>= (Steps.Keeps-dlerror fr env) λ error. Keeps-tun2socks_opened o error)

    Keeps-resolve_hev : (handle : ℕ) → Keeps anything I (Engines.resolve_hev env handle)
    unfolding Engines.resolve_hev
    Keeps-resolve_hev handle =
        search (keeps_rules, Steps.Keeps-dlsym fr env, Keeps-set_hev) depth 30

    Keeps-hev_opened :
        (opened : Option ℕ) (error : Text) → Keeps anything I (Engines.hev_opened env opened error)
    unfolding Engines.hev_opened
    Keeps-hev_opened none error = Keeps-pure _
    Keeps-hev_opened (some handle) error = Keeps-resolve_hev handle

    pub Keeps-load_hev_core : Keeps anything I (Engines.load_hev_core env)
    unfolding Engines.load_hev_core Engines.open_hev
    Keeps-load_hev_core = Keeps->>= (Keeps-gets _) λ loaded. Keeps-if loaded (Keeps-pure _) (
        Keeps->>= (Steps.Keeps-open_library fr env _)
          λ o. Keeps->>= (Steps.Keeps-dlerror fr env) λ error. Keeps-hev_opened o error)

    Keeps-resolve_singbox : (handle : ℕ) → Keeps anything I (Singbox.resolve_singbox env handle)
    unfolding Singbox.resolve_singbox
    Keeps-resolve_singbox handle =
        search (keeps_rules, Steps.Keeps-dlsym fr env, Keeps-set_singbox) depth 30

    Keeps-resolve_opened : (opened : Try ℕ) → Keeps anything I (Singbox.resolve_opened env opened)
    unfolding Singbox.resolve_opened
    Keeps-resolve_opened (failure e) = Keeps-pure _
    Keeps-resolve_opened (success handle) =
        Keeps->>= (Steps.Keeps-dlerror fr env) λ _. Keeps-resolve_singbox handle

    pub Keeps-load_singbox_core : Keeps anything I (Singbox.load_singbox_core env)
    unfolding Singbox.load_singbox_core
    Keeps-load_singbox_core = Keeps->>= (Keeps-gets _) λ loaded.
        Keeps-if loaded (Keeps-pure _)
          (Keeps->>= (Steps.Keeps-open_singbox fr env) Keeps-resolve_opened)

    Keeps-set_inheritable :
        (fd flags : ℤ)
        → ltb_ℤ fd (pos 0) ≡ false
        → Keeps anything I (Calls.set_inheritable env fd flags)
    unfolding Calls.set_inheritable
    Keeps-set_inheritable fd (negsuc n) h = Steps.Keeps-errno_failure fr env _
    Keeps-set_inheritable fd (pos flags) h =
        Keeps->>= (Steps.Keeps-ask fr _ _ (λ _. ground arith))
          λ set. Keeps-if _ (Steps.Keeps-errno_failure fr env _) (Keeps-pure _)

    pub Keeps-make_fd_inheritable :
        (fd : ℤ) → ltb_ℤ fd (pos 0) ≡ false → Keeps anything I (Calls.make_fd_inheritable env fd)
    unfolding Calls.make_fd_inheritable
    Keeps-make_fd_inheritable fd h =
        Keeps->>= (Steps.Keeps-ask fr _ _ (λ _. ground arith))
          λ flags. Keeps-set_inheritable fd flags h

module _ {I : Bridge → Type 0} (fr : Frame I) (env : Env) where
  Keeps-call_and_free :
      (f : Option ℕ) (args : Arguments)
      → valid_arguments args ≡ true
      → Keeps anything I (SingboxHandlers.call_and_free env f args)
  unfolding SingboxHandlers.call_and_free Calls.std_free
  Keeps-call_and_free f args v = Keeps->>= (Steps.Keeps-call_string fr env _ f args v) λ raw.
      Keeps-option raw (Keeps-pure _)
        λ response. Keeps->> (Steps.Keeps-emit fr _ refl) (Keeps-pure _)

  pub Keeps-call_start :
      (request : Text) → Keeps anything I (SingboxHandlers.call_start env request)
  unfolding SingboxHandlers.call_start
  Keeps-call_start request = Keeps->>= (Keeps-gets _) λ f. Keeps-call_and_free f _ refl

  pub Keeps-call_stop : Keeps anything I (SingboxHandlers.call_stop env)
  unfolding SingboxHandlers.call_stop
  Keeps-call_stop = Keeps->>= (Keeps-gets _) λ f. Keeps-call_and_free f _ refl

module _ {I : Bridge → Type 0} (loud : Loud I) where
  pub Keeps-set_message :
      (message : Text) → Keeps anything I (modify (λ s. record s { last_message = message }))
  unfolding modify
  Keeps-set_message message = record { keeps = λ s h. loud.of_message message s h }

  pub Keeps-create_result :
      (ok : Bool) (message : Text) → Keeps anything I (Calls.create_result ok message)
  unfolding Calls.create_result
  Keeps-create_result ok message =
      Keeps->> (Keeps-set_message message)
        (Keeps->> (Steps.Keeps-log loud.frame _ _) (Keeps-pure _))

  pub Keeps-load_failed : (message : Text) → Keeps anything I (Tun.load_failed message)
  unfolding Tun.load_failed
  Keeps-load_failed message =
      Keeps->> (Keeps-set_message message)
        (Keeps->> (Steps.Keeps-log loud.frame _ _) (Keeps-create_result _ _))

  pub Keeps-set_bytes : (up down : ℤ) → Keeps anything I (Handlers.set_bytes up down)
  unfolding Handlers.set_bytes modify
  Keeps-set_bytes up down = record { keeps = λ s h. loud.of_bytes up down s h }

  pub Keeps-load_xray : (env : Env) → Keeps anything I (Xray.load_xray env)
  unfolding Xray.load_xray
  Keeps-load_xray env = Keeps->>= (Steps.Keeps-load_xray_core loud.frame env) λ t.
      Keeps-try t
        (λ e.
          Keeps->> (Keeps-set_message e) (Keeps->> (Steps.Keeps-log loud.frame _ _) (Keeps-pure _)))
        (λ _. Keeps-pure _)
