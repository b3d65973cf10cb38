-- ===== src/Valid/Rules.antt =====
-- Predicates of the engine in use and of what happened, and the rules for the stores of globals.
use hey.Prelude.{ℕ, ◌≡◌, refl, ◌∷◌, Bool, true, false, ℤ}
use hey.Codec.Text.{Text}
use hey.Bridge.State.{Bridge, Event, Trace, HevCore}
use hey.Bridge.Monad.{M, modify}
use hey.Bridge.Calls
use hey.Bridge.Keeps.{Keeps, anything, Keeps->>}
use hey.Loader.Engines
use hey.Xray
use hey.Tun
use hey.Singbox
use hey.Frame.{Frame, Loud, valid}
use hey.Frame.Loads

-- A predicate of the engine in use and of what happened.
pub record Past (P : ℕ → Trace → Type 0) (s : Bridge) : Type 0 where
  pub past : P s.tun_engine s.trace

-- It survives every event that is `valid`.
pub record Closed (P : ℕ → Trace → Type 0) : Type 0 where
  pub of_event :
      (e : Event) (engine : ℕ) (t : Trace) → valid e ≡ true → P engine t → P engine (e ∷ t)

abbrev pub Admits {ℓ} : {A : Type ℓ} → (ℕ → Trace → Type 0) → M A → Type ℓ
Admits P m = Keeps anything (Past P) m

pub Closed-IsLoud : {P : ℕ → Trace → Type 0} → Closed P → Loud (Past P)
Closed-IsLoud closed = record {
  frame = record {
    of_event = λ e s v h. record { past = closed.of_event e s.tun_engine s.trace v h.past };
    of_env_set = λ value s h. record { past = closed.of_event _ s.tun_engine s.trace refl h.past };
    of_xray = λ x s h. record { past = h.past };
    of_singbox = λ x s h. record { past = h.past };
    of_tun2socks = λ x s h. record { past = h.past };
    of_hev = λ x s e h. record { past = h.past };
  };
  of_message = λ message s h. record { past = h.past };
  of_bytes = λ up down s h. record { past = h.past };
}

pub frame : {P : ℕ → Trace → Type 0} → Closed P → Frame (Past P)
frame closed = (Closed-IsLoud closed).frame

module _ {P : ℕ → Trace → Type 0} (closed : Closed P) where
  pub Admits-xray : (b : Bool) → Admits P (Xray.set_xray_running b)
  unfolding Xray.set_xray_running modify
  Admits-xray b = record { keeps = λ s h. record { past = h.past } }

  pub Admits-tun : (b : Bool) → Admits P (Xray.set_tun_running b)
  unfolding Xray.set_tun_running modify
  Admits-tun b = record { keeps = λ s h. record { past = h.past } }

  pub Admits-singbox : (b : Bool) → Admits P (Singbox.set_singbox_running b)
  unfolding Singbox.set_singbox_running modify
  Admits-singbox b = record { keeps = λ s h. record { past = h.past } }

  pub Admits-hev : (f : HevCore → HevCore) → Admits P (Engines.set_hev f)
  unfolding Engines.set_hev modify
  Admits-hev f = record { keeps = λ s h. record { past = h.past } }

  pub Admits-upload : (n : ℤ) → Admits P (modify (λ s. record s { upload_bytes = n }))
  unfolding modify
  Admits-upload n = record { keeps = λ s h. record { past = h.past } }

  pub Admits-download : (n : ℤ) → Admits P (modify (λ s. record s { download_bytes = n }))
  unfolding modify
  Admits-download n = record { keeps = λ s h. record { past = h.past } }

  pub Admits-result : (ok : Bool) (message : Text) → Admits P (Calls.create_result ok message)
  Admits-result = Loads.Keeps-create_result (Closed-IsLoud closed)

  pub Admits-bytes : (up down : ℤ) → Admits P (Xray.set_bytes up down)
  Admits-bytes = Loads.Keeps-set_bytes (Closed-IsLoud closed)

  pub Admits-failed : (message : Text) → Admits P (Xray.tun_failed message)
  unfolding Xray.tun_failed
  Admits-failed message = Keeps->> (Admits-tun false) (Admits-result false message)

  pub Admits-already : (message : Text) → Admits P (Xray.already_stopped message)
  unfolding Xray.already_stopped
  Admits-already message = Keeps->> (Admits-tun false) (Admits-result true message)

-- A store of the engine in use.
pub Admits-engine :
    {P : ℕ → Trace → Type 0} (engine : ℕ)
    → ((g : ℕ) (t : Trace) → P g t → P engine t)
    → Admits P (Tun.set_tun_engine engine)
unfolding Tun.set_tun_engine modify
Admits-engine engine k = record { keeps = λ s h. record { past = k s.tun_engine s.trace h.past } }
