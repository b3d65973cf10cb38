-- ===== src/Adapter/Safety.antt =====
-- The adapter's flag along the bridge's effects, with the detached stops at any time.
use hey.Prelude.{ℕ, ◌&&◌, ◌≡◌, refl, ◌∷◌, Bool, true, false, not, ◌||◌, ◌==◌, ℤ, List, ap, sym, ◌∙◌}
use hey.Codec.Text.{Text}
use hey.Bridge.State
use hey.Bridge.State.{Env, Event, Trace, Bridge, initial, tun_engine_none, tun_engine_gvisor}
use hey.Frame.{valid}
use hey.Valid.Rules.{Past, Closed}
use hey.Tun
use hey.Adapter.{Adapter, EngineEvent, StopStep, During, hey_tun2_socks_start, refuses, run_stops}
use hey.Adapter.Alone.{is_none, no_stops, outcome, run_stops-no_stops, hey_tun2_socks_start-alone}
use hey.Adapter.Alternation.{behind}
use hey.Adapter.Joint.{Schedule, joint, act, overtaken, Came}

-- The adapter's engine runs, and no thread is in a stop.
abbrev pub safe : Adapter → Bool
safe a = no_stops a && a.running

-- The same unless a start has overtaken a stop, and where the bridge has gVisor for the engine in use.
abbrev pub Runs : Schedule → ℕ → Trace → Type 0
Runs w engine t = (overtaken w t || safe (joint w t)) ≡ true

abbrev pub Agrees : Schedule → ℕ → Trace → Type 0
Agrees w engine t =
    (overtaken w t || (not (engine == tun_engine_gvisor) || safe (joint w t))) ≡ true

pub or-true : (b : Bool) → (b || true) ≡ true
or-true true = refl
or-true false = refl

pub or-monotone : (b c d : Bool) → (c ≡ true → d ≡ true) → (b || c) ≡ true → (b || d) ≡ true
or-monotone true c d h e = refl
or-monotone false c d h e = h e

pub or-grows :
    (p b c d : Bool) → (p ≡ false → c ≡ true → d ≡ true) → (b || c) ≡ true → ((p || b) || d) ≡ true
or-grows true b c d h e = refl
or-grows false true c d h e = refl
or-grows false false c d h e = h refl e

pub or-answered : (p b d : Bool) → (p ≡ false → d ≡ true) → ((p || b) || d) ≡ true
or-answered true b d h = refl
or-answered false true d h = refl
or-answered false false d h = h refl

pub and-right : (b c : Bool) → (b && c) ≡ true → c ≡ true
and-right true c h = h
and-right false c h = cc

and-left : (b c : Bool) → (b && c) ≡ true → b ≡ true
and-left true c h = refl
and-left false c h = cc

and-both : (b c : Bool) → b ≡ true → c ≡ true → (b && c) ≡ true
and-both true c h e = e
and-both false c h e = cc

pub of_not : (b : Bool) → not b ≡ false → b ≡ true
of_not true h = refl
of_not false h = cc

run_stops-safe : (ks : List StopStep) (a : Adapter) → safe a ≡ true → safe (run_stops ks a) ≡ true
run_stops-safe ks a h = ap safe (run_stops-no_stops ks a (and-left (no_stops a) _ h)) ∙ h

act-valid : (during : During) (e : Event) (a : Adapter) → valid e ≡ true → act during e a ≡ a
unfolding act
act-valid during (State.called f State.no_arguments) a v = refl
act-valid during (State.called f (State.string_argument s)) a v = refl
act-valid during (State.called f (State.int_argument n)) a v = refl
act-valid during (State.called f (State.start_arguments fd host port mtu)) a v = cc
act-valid during (State.called f (State.config_argument config fd)) a v = cc
act-valid during (State.thread_detached f) a v = cc
act-valid during _ a v = refl

overtaken-valid :
    (w : Schedule) (e : Event) (t : Trace) → valid e ≡ true → overtaken w (e ∷ t) ≡ overtaken w t
overtaken-valid w (State.called f State.no_arguments) t v = refl
overtaken-valid w (State.called f (State.string_argument s)) t v = refl
overtaken-valid w (State.called f (State.int_argument n)) t v = refl
overtaken-valid w (State.called f (State.start_arguments fd host port mtu)) t v = cc
overtaken-valid w (State.called f (State.config_argument config fd)) t v = cc
overtaken-valid w _ t v = refl

abbrev at : Bool → List EngineEvent → ℕ → ℕ → Adapter
at b es p m = record { running = b; engine = es; asked = p; stopping = m }

outcome-Came :
    (b refused fatal : Bool) (fd : ℤ) (host : Text) (port mtu : ℤ) (es : List EngineEvent) (p m : ℕ)
    (n : ℤ)
    → (is_none p && is_none m) ≡ true
    → Came n (outcome refused fatal fd host port mtu (at b es p m))
    → Tun.is_zero n ≡ true
    → safe (behind (at b es p m) (outcome refused fatal fd host port mtu (at b es p m))) ≡ true
outcome-Came true refused fatal fd host port mtu es p m n h c z = and-both _ _ h refl
outcome-Came false true fatal fd host port mtu es p m n h c z =
    let refusal = ap Tun.is_zero (sym c) ∙ z in cc
outcome-Came false false true fd host port mtu es p m n h c z = absurd c
outcome-Came false false false fd host port mtu es p m n h c z = and-both _ _ h refl

outcome-safe :
    (b refused fatal : Bool) (fd : ℤ) (host : Text) (port mtu : ℤ) (es : List EngineEvent) (p m : ℕ)
    → safe (at b es p m) ≡ true
    → safe (behind (at b es p m) (outcome refused fatal fd host port mtu (at b es p m))) ≡ true
outcome-safe true refused fatal fd host port mtu es p m h = h
outcome-safe false refused fatal fd host port mtu es p m h =
    let stands = and-right (is_none p && is_none m) false h in cc

-- A start that came back with zero, and one of an adapter whose engine runs.
pub starts-safe :
    (during : During) (fd : ℤ) (host : Text) (port mtu : ℤ) (a : Adapter) (n : ℤ)
    → no_stops a ≡ true
    → Came n (hey_tun2_socks_start during fd host port mtu a)
    → Tun.is_zero n ≡ true
    → safe (behind a (hey_tun2_socks_start during fd host port mtu a)) ≡ true
starts-safe during fd host port mtu a n h =
    rw (hey_tun2_socks_start-alone during fd host port mtu a h) (
      outcome-Came a.running (refuses fd host port mtu) during.fatal fd host port mtu a.engine
        a.asked a.stopping n h)

pub still-safe :
    (during : During) (fd : ℤ) (host : Text) (port mtu : ℤ) (a : Adapter)
    → safe a ≡ true
    → safe (behind a (hey_tun2_socks_start during fd host port mtu a)) ≡ true
still-safe during fd host port mtu a h =
    rw (hey_tun2_socks_start-alone during fd host port mtu a (and-left (no_stops a) _ h)) (
      outcome-safe a.running (refuses fd host port mtu) during.fatal fd host port mtu a.engine
        a.asked a.stopping h)

module _ (w : Schedule) where
  -- An event that leaves what is asked for as it is.
  safe-cons :
      (e : Event) (t : Trace)
      → safe (act (w (e ∷ t)).during e (joint w t)) ≡ true
      → safe (joint w (e ∷ t)) ≡ true
  unfolding joint
  safe-cons e t h = run_stops-safe _ _ h

  safe-valid :
      (e : Event) (t : Trace)
      → valid e ≡ true
      → safe (joint w t) ≡ true
      → safe (joint w (e ∷ t)) ≡ true
  safe-valid e t v h = safe-cons e t (rw (act-valid (w (e ∷ t)).during e (joint w t) v) h)

  pub Agrees-IsClosed : Closed (Agrees w)
  Agrees-IsClosed = record {
    of_event = λ e g t v h. rw (overtaken-valid w e t v) (
        or-monotone (overtaken w t) _ _
          (or-monotone (not (g == tun_engine_gvisor)) _ _ (safe-valid e t v)) h);
  }

  pub Runs-IsClosed : Closed (Runs w)
  Runs-IsClosed = record {
    of_event = λ e g t v h.
        rw (overtaken-valid w e t v) (or-monotone (overtaken w t) _ _ (safe-valid e t v) h);
  }

  pub Agrees-of_Runs : (s : Bridge) → Past (Runs w) s → Past (Agrees w) s
  Agrees-of_Runs s h = record {
    past =
        or-monotone (overtaken w s.trace) _ _
          (or-weaken (not (s.tun_engine == tun_engine_gvisor)) _) h.past;
  }
    where
      or-weaken : (b c : Bool) → c ≡ true → (b || c) ≡ true
      or-weaken true c h = refl
      or-weaken false c h = h

  pub safe-started :
      (f : ℕ) (fd : ℤ) (host : Text) (port mtu : ℤ) (t : Trace)
      → safe (
          behind (joint w t) (
            hey_tun2_socks_start
              (w (State.called f (State.start_arguments fd host port mtu) ∷ t)).during
              fd
              host
              port
              mtu
              (joint w t)))
        ≡ true
      → safe (joint w (State.called f (State.start_arguments fd host port mtu) ∷ t)) ≡ true
  unfolding act
  safe-started f fd host port mtu t r =
      safe-cons (State.called f (State.start_arguments fd host port mtu)) t r

  pub safe-hev :
      (f : ℕ) (args : State.Arguments) (t : Trace)
      → safe (joint w t) ≡ true
      → safe (joint w (State.thread_started f args ∷ t)) ≡ true
  unfolding act
  safe-hev f args t h = safe-cons (State.thread_started f args) t h
