-- ===== src/Valid/Plane.antt =====
-- What the data plane does about hev's thread, and the report of its counters.
use hey.Prelude.{ℕ, refl, not, ◌&&◌, ◌==◌, is_some, Option, none, some}
use hey.Codec.Text.{Text}
use hey.Bridge.State.{Env, Trace, tun_engine_hev}
use hey.Bridge.Keeps.{Keeps->>=, Keeps->>, Keeps-if, Keeps-pure, Keeps-gets, Keeps-block}
use hey.Tun
use hey.Frame.Steps
use hey.Frame.Loads
use hey.Valid.Rules
use hey.Valid.Rules.{Admits, Closed, Closed-IsLoud, frame}

module _ {P : ℕ → Trace → Type 0} (closed : Closed P) where
  pub Admits-load_failed : (message : Text) → Admits P (Tun.load_failed message)
  Admits-load_failed = Loads.Keeps-load_failed (Closed-IsLoud closed)

  Admits-call_if_some : (f : Option ℕ) → Admits P (Tun.call_if_some f)
  unfolding Tun.call_if_some
  Admits-call_if_some none = Keeps-pure _
  Admits-call_if_some (some f) = Steps.Keeps-emit (frame closed) _ refl

  module _ (env : Env) where
    pub Admits-join_hev_thread : Admits P (Tun.join_hev_thread env)
    unfolding Tun.join_hev_thread
    Admits-join_hev_thread = Keeps->>= (Keeps-gets _) λ b. Keeps-if (not b) (Keeps-pure _) (
        Keeps->>= (Keeps-gets _) λ returns.
          Keeps-if (not returns) (Keeps-block tt)
            (Keeps->> (Steps.Keeps-emit (frame closed) _ refl) ((Rules.Admits-hev closed) _)))

    pub Admits-stop_hev : Admits P (Tun.stop_hev env)
    unfolding Tun.stop_hev
    Admits-stop_hev = Keeps->>= (Keeps-gets _) λ quit.
        Keeps->> (Admits-call_if_some quit)
          (Keeps->> Admits-join_hev_thread ((Rules.Admits-result closed) _ _))

    Admits-read_hev : (f : Option ℕ) → Admits P (Tun.read_hev env f)
    unfolding Tun.read_hev
    Admits-read_hev none = Keeps-pure _
    Admits-read_hev (some f) =
        Keeps->>= (Steps.Keeps-ask (frame closed) _ _ (λ _. refl))
          λ counters. (Rules.Admits-bytes closed) _ _

    Admits-read_tun2socks : (f g : Option ℕ) → Admits P (Tun.read_tun2socks env f g)
    unfolding Tun.read_tun2socks
    Admits-read_tun2socks none g = Keeps-pure _
    Admits-read_tun2socks (some f) none = Keeps-pure _
    Admits-read_tun2socks (some f) (some g) =
        Keeps->>= (Steps.Keeps-ask (frame closed) _ _ (λ _. refl)) λ up.
          Keeps->> ((Rules.Admits-upload closed) _) (
            Keeps->>= (Steps.Keeps-ask (frame closed) _ _ (λ _. refl))
              λ down. (Rules.Admits-download closed) _)

    pub Admits-get_stats : Admits P (Tun.get_stats env)
    unfolding Tun.get_stats Tun.refresh_counters
    Admits-get_stats = Keeps->>= (Keeps-gets _) λ running.
        Keeps->>
          (Keeps-if running
            (Keeps->>= (Keeps-gets _) λ s.
              Keeps-if (s.tun_engine == tun_engine_hev && is_some s.hev.stats) (Admits-read_hev _)
                (Admits-read_tun2socks _ _))
            (Keeps-pure _))
          (Keeps-gets _)
