-- ===== src/Adapter/Alternation.antt =====
-- The engine is started and stopped in turns, as long as a start waits for the stops before it.
use hey.Prelude.{ℕ, zero, suc, ◌≡◌, [], ◌∷◌, List, Bool, true, false, ℤ, Option, none, some, ◌&&◌}
use hey.Codec.Text.{Text}
use hey.Adapter.{
  Adapter, EngineEvent, inserted, started, stopped, Key, stop_tun2socks, StopStep, swaps, stops,
  run_stops, During, hey_tun2_socks_start, refuses,
}
use hey.Adapter.Alone.{alone, no_stops, is_none, hey_tun2_socks_start-alone, outcome}

-- A start has its key inserted right before it, and stands behind a stop or at the beginning; a stop
-- stands behind a start. The flag says whether the last of them is a start.
pub data Alternates : Bool → List EngineEvent → Type 0 where
  nothing : Alternates false []
  starts :
      {es : List EngineEvent} (key : Key)
      → Alternates false es
      → Alternates true (started ∷ inserted key ∷ es)
  stopped_after : {es : List EngineEvent} → Alternates true es → Alternates false (stopped ∷ es)

-- The engine runs just where the flag is set or one thread has swapped it and is about to stop the
-- engine; never both, and never two such threads.
pub data InTurns : Adapter → Type 0 where
  rests :
      {es : List EngineEvent} {n : ℕ}
      → Alternates false es
      → InTurns (record { running = false; engine = es; asked = n; stopping = 0 })
  runs :
      {es : List EngineEvent} {n : ℕ}
      → Alternates true es
      → InTurns (record { running = true; engine = es; asked = n; stopping = 0 })
  ends :
      {es : List EngineEvent} {n : ℕ}
      → Alternates true es
      → InTurns (record { running = false; engine = es; asked = n; stopping = 1 })

swaps-InTurns :
    (b : Bool) (es : List EngineEvent) (n m : ℕ)
    → InTurns (record { running = b; engine = es; asked = n; stopping = m })
    → InTurns (stop_tun2socks swaps (record { running = b; engine = es; asked = n; stopping = m }))
unfolding stop_tun2socks
swaps-InTurns b es zero m h = h
swaps-InTurns false es (suc n) m (rests h) = rests h
swaps-InTurns true es (suc n) m (runs h) = ends h
swaps-InTurns false es (suc n) m (ends h) = ends h

stops-InTurns : (a : Adapter) → InTurns a → InTurns (stop_tun2socks stops a)
unfolding stop_tun2socks
stops-InTurns a (rests h) = rests h
stops-InTurns a (runs h) = runs h
stops-InTurns a (ends h) = rests (stopped_after h)

stop_tun2socks-InTurns : (k : StopStep) (a : Adapter) → InTurns a → InTurns (stop_tun2socks k a)
stop_tun2socks-InTurns swaps a h = swaps-InTurns a.running a.engine a.asked a.stopping h
stop_tun2socks-InTurns stops a h = stops-InTurns a h

pub run_stops-InTurns : (ks : List StopStep) (a : Adapter) → InTurns a → InTurns (run_stops ks a)
unfolding run_stops
run_stops-InTurns [] a h = h
run_stops-InTurns (k ∷ ks) a h =
    run_stops-InTurns ks (stop_tun2socks k a) (stop_tun2socks-InTurns k a h)

-- The adapter behind a start, which is as it was where the process ends.
abbrev pub behind : Adapter → Option (ℤ × Adapter) → Adapter
behind a none = a
behind a (some (n, b)) = b

rests-InTurns :
    (refused fatal : Bool) (fd : ℤ) (host : Text) (port mtu : ℤ) (es : List EngineEvent) (n : ℕ)
    → Alternates false es
    → InTurns (
        behind
          (record { running = false; engine = es; asked = n; stopping = 0 })
          (outcome refused fatal fd host port mtu
            (record { running = false; engine = es; asked = n; stopping = 0 })))
rests-InTurns true fatal fd host port mtu es n h = rests h
rests-InTurns false true fd host port mtu es n h = rests h
rests-InTurns false false fd host port mtu es n h = runs (starts _ h)

alone-InTurns :
    (fatal : Bool) (fd : ℤ) (host : Text) (port mtu : ℤ) (a : Adapter)
    → is_none a.stopping ≡ true
    → InTurns a
    → InTurns (behind a (alone fatal fd host port mtu a))
alone-InTurns fatal fd host port mtu a q (runs h) = runs h
alone-InTurns fatal fd host port mtu a q (ends h) = cc
alone-InTurns fatal fd host port mtu a q (rests {es} {n} h) =
    rests-InTurns (refuses fd host port mtu) fatal fd host port mtu es n h

stopping-none : (n m : ℕ) → (is_none n && is_none m) ≡ true → is_none m ≡ true
stopping-none zero m h = h
stopping-none (suc n) m h = cc

pub hey_tun2_socks_start-InTurns :
    (during : During) (a : Adapter) (fd : ℤ) (host : Text) (port mtu : ℤ)
    → no_stops a ≡ true
    → InTurns a
    → InTurns (behind a (hey_tun2_socks_start during fd host port mtu a))
hey_tun2_socks_start-InTurns during a fd host port mtu q h =
    rw (hey_tun2_socks_start-alone during fd host port mtu a q)
      (alone-InTurns during.fatal fd host port mtu a (stopping-none a.asked a.stopping q) h)

pub asked-InTurns : (a : Adapter) → InTurns a → InTurns (record a { asked = suc a.asked })
asked-InTurns a (rests h) = rests h
asked-InTurns a (runs h) = runs h
asked-InTurns a (ends h) = ends h
