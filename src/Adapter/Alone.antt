-- ===== src/Adapter/Alone.antt =====
-- A start while no thread is in a stop: the steps around it do nothing.
use hey.Prelude.{
  ℕ, zero, suc, ◌≡◌, refl, ◌∷◌, [], List, Bool, true, false, ◌&&◌, Option, none, some, ℤ, pos,
  negsuc, if◌then◌else◌, ap, ◌∙◌,
}
use hey.Codec.Text.{Text}
use hey.Adapter.{
  Adapter, EngineEvent, StopStep, swaps, stops, stop_tun2socks, run_stops, During, start_tun2socks,
  started, inserted, engine_key, refuses, hey_tun2_socks_start, ask_engine,
}

abbrev pub is_none : ℕ → Bool
is_none zero = true
is_none (suc n) = false

-- No thread is in a stop.
abbrev pub no_stops : Adapter → Bool
no_stops a = is_none a.asked && is_none a.stopping

-- What a start makes of the adapter, where it is not refused.
abbrev pub launched : ℤ → Text → ℤ → ℤ → Adapter → Adapter
launched fd host port mtu a = if a.running then a else record a {
  running = true;
  engine = started ∷ inserted (engine_key fd host port mtu) ∷ a.engine;
}

stop-no_stops :
    (k : StopStep) (b : Bool) (es : List EngineEvent) (n m : ℕ)
    → (is_none n && is_none m) ≡ true
    → stop_tun2socks k (record { running = b; engine = es; asked = n; stopping = m })
      ≡ record { running = b; engine = es; asked = n; stopping = m }
unfolding stop_tun2socks
stop-no_stops swaps b es zero zero h = refl
stop-no_stops stops b es zero zero h = refl
stop-no_stops k b es zero (suc m) h = cc
stop-no_stops k b es (suc n) m h = cc

pub run_stops-no_stops : (ks : List StopStep) (a : Adapter) → no_stops a ≡ true → run_stops ks a ≡ a
unfolding run_stops
run_stops-no_stops [] a h = refl
run_stops-no_stops (k ∷ ks) a h =
    ap (run_stops ks) (stop-no_stops k a.running a.engine a.asked a.stopping h)
    ∙ run_stops-no_stops ks a h

-- What a start answers and leaves, where it is or is not refused, and its engine ends the process or not.
abbrev pub outcome : Bool → Bool → ℤ → Text → ℤ → ℤ → Adapter → Option (ℤ × Adapter)
outcome refused fatal fd host port mtu a =
    if a.running
    then some (pos 0, a)
    else if refused
    then some (negsuc 0, a)
    else if fatal
    then none
    else some (pos 0, launched fd host port mtu a)

abbrev pub alone : Bool → ℤ → Text → ℤ → ℤ → Adapter → Option (ℤ × Adapter)
alone fatal fd host port mtu a = outcome (refuses fd host port mtu) fatal fd host port mtu a

abbrev state : List EngineEvent → ℕ → ℕ → Adapter
state es n m = record { running = false; engine = es; asked = n; stopping = m }

abbrev around : List StopStep → List StopStep → List StopStep → Bool → During
around i j k fatal = record { before_insert = i; before_start = j; before_store = k; fatal = fatal }

start-idle :
    (i j k : List StopStep) (refused fatal : Bool) (fd : ℤ) (host : Text) (port mtu : ℤ)
    (es : List EngineEvent) (n m : ℕ)
    → (is_none n && is_none m) ≡ true
    → refuses fd host port mtu ≡ refused
    → hey_tun2_socks_start (around i j k fatal) fd host port mtu (state es n m)
      ≡ alone fatal fd host port mtu (state es n m)
unfolding hey_tun2_socks_start start_tun2socks ask_engine
start-idle i j k true fatal fd host port mtu es n m h r =
    rw (hey_tun2_socks_start, start_tun2socks, r) refl
start-idle i j k false true fd host port mtu es n m h r =
    rw (hey_tun2_socks_start, start_tun2socks, r) refl
start-idle i j k false false fd host port mtu es n m h r =
    let key = inserted (engine_key fd host port mtu) in
    rw
      (
        hey_tun2_socks_start,
        start_tun2socks,
        ask_engine,
        r,
        run_stops-no_stops i (state es n m) h,
        run_stops-no_stops j (state (key ∷ es) n m) h,
        run_stops-no_stops k (state (started ∷ key ∷ es) n m) h,
      )
      refl

by_flag :
    (during : During) (fd : ℤ) (host : Text) (port mtu : ℤ) (b : Bool) (es : List EngineEvent)
    (n m : ℕ)
    → (is_none n && is_none m) ≡ true
    → hey_tun2_socks_start during fd host port mtu
        (record { running = b; engine = es; asked = n; stopping = m })
      ≡ alone during.fatal fd host port mtu
          (record { running = b; engine = es; asked = n; stopping = m })
unfolding hey_tun2_socks_start start_tun2socks
by_flag during fd host port mtu true es n m h = refl
by_flag during fd host port mtu false es n m h =
    start-idle during.before_insert during.before_start during.before_store
      (refuses fd host port mtu) during.fatal fd host port mtu es n m h refl

pub hey_tun2_socks_start-alone :
    (during : During) (fd : ℤ) (host : Text) (port mtu : ℤ) (a : Adapter)
    → no_stops a ≡ true
    → hey_tun2_socks_start during fd host port mtu a ≡ alone during.fatal fd host port mtu a
hey_tun2_socks_start-alone during fd host port mtu a h =
    by_flag during fd host port mtu a.running a.engine a.asked a.stopping h
