-- ===== src/Life/Plane.antt =====
-- The handlers of the data plane as steps of the life.
use hey.Prelude.{
  ℕ, ◌≡◌, refl, ap, List, true, false, not, Option, none, some, ℤ, pos, ltb, ltb_ℤ, length,
  is_empty,
}
use hey.Codec.Text.{Text, text}
use hey.Bridge.State.{Env, Event, Level, Arguments, HevCore, Trace}
use hey.Bridge.Monad.{emit, ask, crash, modify, ◌>>◌}
use hey.Bridge.Calls
use hey.Bridge.Keeps.{
  Keeps, anything, Keeps->>=, Keeps->>, Keeps-if, Keeps-pure, Keeps-gets, Keeps-block,
}
use hey.Loader.Engines
use hey.Xray as Handlers
use hey.Tun
use hey.Module
use hey.Module.{Method}
use hey.Frame.Loads
use hey.Life.{
  Life, life, may_refuse, refused, gvisor_already, gvisor_started, hev_already, hev_started,
}
use hey.Life.Moves.{
  life-IsFrame, life-IsLoud, Moves, Moves->>=, Moves->>, Moves-store, Moves-test, Moves-if,
  Moves-unless, Moves-try, Moves-result,
}
use hey.Life.Xray.{Turns}

module _ {a : Life} where
  pub Keeps-emit : (e : Event) → Keeps anything (λ s. life s ≡ a) (emit e)
  unfolding emit
  Keeps-emit e = record { keeps = λ s h. h }

  pub Keeps-ask {ℓ} :
      {A : Type ℓ} (f : Trace → A) (e : A → Event) → Keeps anything (λ s. life s ≡ a) (ask f e)
  unfolding ask
  Keeps-ask f e = record { keeps = λ s h. h }

  Keeps-hev : (f : HevCore → HevCore) → Keeps anything (λ s. life s ≡ a) (Engines.set_hev f)
  unfolding Engines.set_hev modify
  Keeps-hev f = record { keeps = λ s h. h }

  Keeps-start_hev_thread :
      (f : Option ℕ) (config : Text) (fd : ℤ)
      → Keeps anything (λ s. life s ≡ a) (Tun.start_hev_thread f config fd)
  unfolding Tun.start_hev_thread crash
  Keeps-start_hev_thread none config fd = record { keeps = λ s h. tt }
  Keeps-start_hev_thread (some f) config fd = Keeps->> (Keeps-emit _) (Keeps-hev _)

  pub Keeps-call_if_some : (f : Option ℕ) → Keeps anything (λ s. life s ≡ a) (Tun.call_if_some f)
  unfolding Tun.call_if_some
  Keeps-call_if_some none = Keeps-pure _
  Keeps-call_if_some (some f) = Keeps-emit _

  pub Keeps-detach_stop : (f : Option ℕ) → Keeps anything (λ s. life s ≡ a) (Tun.detach_stop f)
  unfolding Tun.detach_stop crash
  Keeps-detach_stop none = record { keeps = λ s h. tt }
  Keeps-detach_stop (some f) = Keeps-emit _

  -- The data plane starts with an engine.
  Moves-plane :
      {Q : Calls.NapiResult → Life → Type 0} (engine : ℕ) (message : Text)
      → Q (record { ok = true; message = message }) (record a { tun = true; engine = engine })
      → Moves a Q (
          Handlers.set_tun_running true
          >> (Tun.set_tun_engine engine >> Calls.create_result true message))
  unfolding Handlers.set_tun_running Tun.set_tun_engine
  Moves-plane engine message h =
      Moves-store (record a { tun = true }) _ (λ s e. ap (λ (l : Life). record l { tun = true }) e)
        (Moves-store (record a { tun = true; engine = engine }) _
          (λ s e. ap (λ (l : Life). record l { engine = engine }) e) (Moves-result true message h))

  Turns-load_failed :
      {m : Method} → may_refuse m ≡ true → (message : Text) → Turns m a (Tun.load_failed message)
  unfolding Tun.load_failed
  Turns-load_failed h message =
      Moves->> (Loads.Keeps-set_message (life-IsLoud a) _)
        (Moves->> (Keeps-log _ _) (Moves-result false message (refused h)))
    where
      Keeps-log :
          (level : Level) (text : Text) → Keeps anything (λ s. life s ≡ a) (Calls.log level text)
      Keeps-log level text = unfold Calls.log in Keeps-emit _

  module _ (env : Env) where
    pub Keeps-join_hev_thread : Keeps anything (λ s. life s ≡ a) (Tun.join_hev_thread env)
    unfolding Tun.join_hev_thread
    Keeps-join_hev_thread = Keeps->>= (Keeps-gets _) λ b. Keeps-if (not b) (Keeps-pure _) (
        Keeps->>= (Keeps-gets _) λ returns.
          Keeps-if (not returns) (Keeps-block tt) (Keeps->> (Keeps-emit _) (Keeps-hev _)))

    Keeps-call_status :
        (f : Option ℕ) (args : Arguments)
        → Keeps anything (λ s. life s ≡ a) (Tun.call_status env f args)
    unfolding Tun.call_status crash
    Keeps-call_status none args = record { keeps = λ s h. tt }
    Keeps-call_status (some f) args = Keeps-ask _ _

    Turns-launch_gvisor :
        a.tun ≡ false
        → (fd : ℤ) (host : Text) (port mtu : ℤ)
        → Turns Module.start_tun2socks_method a (Tun.launch_gvisor env fd host port mtu)
    unfolding Tun.launch_gvisor
    Turns-launch_gvisor off fd host port mtu = Moves->>= (Keeps-gets _) λ f.
        Moves->>= (Keeps-call_status f _) λ n.
          Moves-if (not (Tun.is_zero n)) (Moves-result false _ (refused refl))
            (Moves-plane _ _ (gvisor_started off))

    Turns-run_tun2socks :
        a.tun ≡ false
        → (fd : ℤ) (host : Text) (port mtu : ℤ) → ltb_ℤ fd (pos 0) ≡ false
        → Turns Module.start_tun2socks_method a (Tun.run_tun2socks env fd host port mtu)
    unfolding Tun.run_tun2socks
    Turns-run_tun2socks off fd host port mtu h =
        Moves->> (Loads.Keeps-set_bytes (life-IsLoud a) _ _) (
          Moves->>= (Loads.Keeps-load_tun2socks_core (life-IsFrame a) env) λ t.
            Moves-try t (Turns-load_failed refl) λ _.
              Moves->>= (Loads.Keeps-make_fd_inheritable (life-IsFrame a) env fd h) λ i.
                Moves-try i (λ e. Moves-result false e (refused refl))
                  λ _. Turns-launch_gvisor off fd host port mtu)

    pub Turns-start_tun2socks :
        (args : List ℕ) → Turns Module.start_tun2socks_method a (Tun.start_tun2socks env args)
    unfolding Tun.start_tun2socks
    Turns-start_tun2socks args =
        let fd = Calls.get_int_arg env (Calls.arg args 0) in
        let host = Calls.get_string_arg env (Calls.arg args 1) in
        let port = Calls.get_int_arg env (Calls.arg args 2) in
        let mtu = Calls.get_int_arg env (Calls.arg args 3) in
        Moves-if (ltb (length args) 4) (Moves-result false _ (refused refl)) (
          Moves-unless (ltb_ℤ fd (pos 0)) (Moves-result false _ (refused refl)) λ h.
            Moves-if (Tun.invalid_endpoint host port mtu) (Moves-result false _ (refused refl)) (
              Moves-test (λ s. s.tun_running) (λ l. l.tun) (λ s. refl)
                (λ on. Moves-result true _ (gvisor_already on))
                λ off. Turns-run_tun2socks off fd host port mtu h))

    Turns-launch_hev :
        a.tun ≡ false
        → (config : Text) (fd : ℤ)
        → Turns Module.start_hev_tun_method a (Tun.launch_hev env config fd)
    unfolding Tun.launch_hev
    Turns-launch_hev off config fd = Moves->> Keeps-join_hev_thread (
        Moves->>= (Keeps-gets _)
          λ f. Moves->> (Keeps-start_hev_thread f config fd) (Moves-plane _ _ (hev_started off)))

    Turns-run_hev :
        a.tun ≡ false
        → (config : Text) (fd : ℤ) → ltb_ℤ fd (pos 0) ≡ false
        → Turns Module.start_hev_tun_method a (Tun.run_hev env config fd)
    unfolding Tun.run_hev
    Turns-run_hev off config fd h = Moves->> (Loads.Keeps-set_bytes (life-IsLoud a) _ _) (
        Moves->>= (Loads.Keeps-load_hev_core (life-IsFrame a) env) λ t.
          Moves-try t (Turns-load_failed refl) λ _.
            Moves->>= (Loads.Keeps-make_fd_inheritable (life-IsFrame a) env fd h) λ i.
              Moves-try i (λ e. Moves-result false e (refused refl))
                λ _. Turns-launch_hev off config fd)

    pub Turns-start_hev_tun :
        (args : List ℕ) → Turns Module.start_hev_tun_method a (Tun.start_hev_tun env args)
    unfolding Tun.start_hev_tun
    Turns-start_hev_tun args =
        let fd = Calls.get_int_arg env (Calls.arg args 0) in
        let config = Calls.get_string_arg env (Calls.arg args 1) in
        Moves-if (ltb (length args) 2) (Moves-result false _ (refused refl)) (
          Moves-unless (ltb_ℤ fd (pos 0)) (Moves-result false _ (refused refl)) λ h.
            Moves-if (is_empty config) (Moves-result false _ (refused refl)) (
              Moves-test (λ s. s.tun_running) (λ l. l.tun) (λ s. refl)
                (λ on. Moves-result true _ (hev_already on)) λ off. Turns-run_hev off config fd h))
