-- ===== src/Life/Stop.antt =====
-- The stop of the data plane and the report of its counters as steps of the life.
use hey.Prelude.{
  ℕ, ◌≡◌, refl, ap, Bool, true, false, ◌==◌, ◌&&◌, Option, none, some, ℤ, is_some, if◌then◌else◌,
}
use hey.Bridge.State.{Env, tun_engine_none, tun_engine_hev}
use hey.Bridge.Monad.{modify}
use hey.Bridge.Keeps.{Keeps, anything, Keeps->>=, Keeps->>, Keeps-if, Keeps-pure, Keeps-gets}
use hey.Xray as Handlers
use hey.Tun
use hey.Module
use hey.Frame.Loads
use hey.Life.{Life, life, Step, plane_idle, plane_stopped, gvisor_lost}
use hey.Life.Moves.{
  life-IsFrame, life-IsLoud, Moves, Moves->>=, Moves->>, Moves-store, Moves-read, Moves-test_not,
  Moves-try, Moves-result,
}
use hey.Life.Xray.{Turns}
use hey.Life.Plane

module _ {a : Life} (env : Env) where
  Moves-stop_hev :
      a.tun ≡ true
      → Moves
          (record a { tun = false; engine = tun_engine_none })
          (λ r b. Step Module.stop_tun2socks_method a r.ok b)
          (Tun.stop_hev env)
  unfolding Tun.stop_hev
  Moves-stop_hev on = Moves->>= (Keeps-gets _) λ quit.
      Moves->> (Plane.Keeps-call_if_some quit)
        (Moves->> (Plane.Keeps-join_hev_thread env) (Moves-result true _ (plane_stopped on)))

  Moves-stop_gvisor :
      a.tun ≡ true
      → (a.engine == tun_engine_hev) ≡ false
      → Moves
          (record a { tun = false; engine = tun_engine_none })
          (λ r b. Step Module.stop_tun2socks_method a r.ok b)
          (Tun.stop_gvisor env)
  unfolding Tun.stop_gvisor
  Moves-stop_gvisor on other = Moves->>= (Loads.Keeps-load_tun2socks_core (life-IsFrame _) env) λ t.
      Moves-try t (λ e. Moves-result false e (gvisor_lost on other))
        λ _.
          Moves->>= (Keeps-gets _)
            λ stop. Moves->> (Plane.Keeps-detach_stop stop) (Moves-result true _ (plane_stopped on))

  Moves-stop_engine :
      a.tun ≡ true
      → (b : Bool) → (a.engine == tun_engine_hev) ≡ b
      → Moves
          (record a { tun = false; engine = tun_engine_none })
          (λ r b. Step Module.stop_tun2socks_method a r.ok b)
          (if b then Tun.stop_hev env else Tun.stop_gvisor env)
  Moves-stop_engine on true is = Moves-stop_hev on
  Moves-stop_engine on false is = Moves-stop_gvisor on is

  pub Turns-stop_tun2socks : Turns Module.stop_tun2socks_method a (Tun.stop_tun2socks env)
  unfolding Tun.stop_tun2socks Tun.set_tun_engine Handlers.set_tun_running
  Turns-stop_tun2socks =
      Moves-test_not (λ s. s.tun_running) (λ l. l.tun) (λ s. refl)
        (λ off. Moves-result true _ (plane_idle off))
        λ on.
          Moves-read (λ s. s.tun_engine) (λ l. l.engine) _ (λ s. refl)
            (Moves-store (record a { engine = tun_engine_none }) _
              (λ s e. ap (λ (l : Life). record l { engine = tun_engine_none }) e)
              (Moves-store (record a { tun = false; engine = tun_engine_none }) _
                (λ s e. ap (λ (l : Life). record l { tun = false }) e)
                (Moves-stop_engine on (a.engine == tun_engine_hev) refl)))

  Keeps-upload :
      (n : ℤ) → Keeps anything (λ s. life s ≡ a) (modify (λ s. record s { upload_bytes = n }))
  unfolding modify
  Keeps-upload n = record { keeps = λ s h. h }

  Keeps-download :
      (n : ℤ) → Keeps anything (λ s. life s ≡ a) (modify (λ s. record s { download_bytes = n }))
  unfolding modify
  Keeps-download n = record { keeps = λ s h. h }

  Keeps-read_hev : (f : Option ℕ) → Keeps anything (λ s. life s ≡ a) (Tun.read_hev env f)
  unfolding Tun.read_hev
  Keeps-read_hev none = Keeps-pure _
  Keeps-read_hev (some f) =
      Keeps->>= (Plane.Keeps-ask _ _) λ counters. Loads.Keeps-set_bytes (life-IsLoud a) _ _

  Keeps-read_tun2socks :
      (f g : Option ℕ) → Keeps anything (λ s. life s ≡ a) (Tun.read_tun2socks env f g)
  unfolding Tun.read_tun2socks
  Keeps-read_tun2socks none g = Keeps-pure _
  Keeps-read_tun2socks (some f) none = Keeps-pure _
  Keeps-read_tun2socks (some f) (some g) =
      Keeps->>= (Plane.Keeps-ask _ _)
        λ up. Keeps->> (Keeps-upload _) (Keeps->>= (Plane.Keeps-ask _ _) λ down. Keeps-download _)

  pub Keeps-get_stats : Keeps anything (λ s. life s ≡ a) (Tun.get_stats env)
  unfolding Tun.get_stats Tun.refresh_counters
  Keeps-get_stats = Keeps->>= (Keeps-gets _) λ running.
      Keeps->>
        (Keeps-if running
          (Keeps->>= (Keeps-gets _) λ s.
            Keeps-if (s.tun_engine == tun_engine_hev && is_some s.hev.stats) (Keeps-read_hev _)
              (Keeps-read_tun2socks _ _))
          (Keeps-pure _))
        (Keeps-gets _)
