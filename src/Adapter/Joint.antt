-- ===== src/Adapter/Joint.antt =====
-- The bridge and the adapter together: what the bridge did decides what the adapter is asked. A stop
-- runs on a detached thread, so that its two steps may happen later than the bridge's next calls, and
-- also during them.
use hey.Prelude.{ℕ, ◌≡◌, refl, [], ◌∷◌, List, Option, none, some, ℤ, Bool, true, false, not, ◌||◌}
use hey.Codec.Text.{Text}
use hey.Bridge.State
use hey.Bridge.State.{Env, Event, Trace}
use hey.Adapter.{
  Adapter, idle, StopStep, During, run_stops, hey_tun2_socks_start, hey_tun2_socks_stop,
}
use hey.Adapter.Alone.{no_stops}
use hey.Adapter.Alternation.{
  behind, InTurns, rests, nothing, hey_tun2_socks_start-InTurns, asked-InTurns, run_stops-InTurns,
}

-- What the detached threads do, and the engine, around an event of the bridge: during a start of the
-- adapter, and after the event.
pub record Turn : Type 0 where
  pub during : During
  pub after : List StopStep

-- The turn of the last event of a trace.
abbrev pub Schedule : Type 0
Schedule = Trace → Turn

-- What one event of the bridge does: gVisor's start is the only function that is called with an
-- endpoint, and its stop the only one that is given to a detached thread.
unfoldable pub act : During → Event → Adapter → Adapter
act during (State.called f (State.start_arguments fd host port mtu)) a =
    behind a (hey_tun2_socks_start during fd host port mtu a)
act during (State.thread_detached f) a = hey_tun2_socks_stop a
act during e a = a

unfoldable pub joint : Schedule → Trace → Adapter
joint w [] = idle
joint w (e ∷ t) = run_stops (w (e ∷ t)).after (act (w (e ∷ t)).during e (joint w t))

-- The call came back with this number: the process has not ended.
abbrev pub Came : ℤ → Option (ℤ × Adapter) → Type 0
Came n none = ⊥
Came n (some (m, a)) = n ≡ m

-- The library of gVisor is the adapter: a start comes back, and answers as the adapter does where it
-- has got to.
pub record Loads (env : Env) (w : Schedule) : Type 0 where
  pub status :
      (t : Trace) (f : ℕ) (fd : ℤ) (host : Text) (port mtu : ℤ)
      → Came (env.status t f (State.start_arguments fd host port mtu)) (
          hey_tun2_socks_start
            (w (State.called f (State.start_arguments fd host port mtu) ∷ t)).during
            fd
            host
            port
            mtu
            (joint w t))

-- gVisor was asked to start while a detached stop had not run to its end.
abbrev pub overtaken : Schedule → Trace → Bool
overtaken w [] = false
overtaken w (State.called f (State.start_arguments fd host port mtu) ∷ t) =
    not (no_stops (joint w t)) || overtaken w t
overtaken w (_ ∷ t) = overtaken w t

neither : (b c : Bool) → (not b || c) ≡ false → (b ≡ true) × (c ≡ false)
neither true c h = (refl, h)
neither false c h = cc

act-InTurns :
    (w : Schedule) (during : During) (e : Event) (t : Trace)
    → overtaken w (e ∷ t) ≡ false
    → (overtaken w t ≡ false → InTurns (joint w t))
    → InTurns (act during e (joint w t))
unfolding act hey_tun2_socks_stop
act-InTurns w during (State.called f (State.start_arguments fd host port mtu)) t o h =
    let (alone, before) = neither (no_stops (joint w t)) (overtaken w t) o in
    hey_tun2_socks_start-InTurns during (joint w t) fd host port mtu alone (h before)
act-InTurns w during (State.thread_detached f) t o h = asked-InTurns (joint w t) (h o)
act-InTurns w during (State.called f State.no_arguments) t o h = h o
act-InTurns w during (State.called f (State.string_argument s)) t o h = h o
act-InTurns w during (State.called f (State.int_argument n)) t o h = h o
act-InTurns w during (State.called f (State.config_argument config fd)) t o h = h o
act-InTurns w during _ t o h = h o

-- Whatever the bridge did, and whenever the two steps of each detached stop run, unless gVisor was once
-- asked to start while a detached stop had not run to its end (`overtaken`), the adapter starts and
-- stops the engine in turns, with a key inserted right before each start; the engine runs just where
-- the flag is set or one thread has swapped it and not called the engine's stop yet.
pub joint-InTurns : (w : Schedule) (t : Trace) → overtaken w t ≡ false → InTurns (joint w t)
unfolding joint
joint-InTurns w [] o = rests nothing
joint-InTurns w (e ∷ t) o =
    run_stops-InTurns (w (e ∷ t)).after _
      (act-InTurns w (w (e ∷ t)).during e t o (λ before. joint-InTurns w t before))
