-- ===== src/Adapter/Launch.antt =====
-- The call of the adapter behind the bridge's tests: what it does with the endpoint.
use hey.Prelude.{
  List, ◌&&◌, ap, ◌∙◌, ℕ, is_some, ◌≡◌, refl, ◌∷◌, Bool, true, false, not, ◌||◌, ℤ, pos, ltb_ℤ,
  is_empty, Option, none, some, if◌then◌else◌, arith,
}
use hey.Codec.Text.{Text, text, c_str}
use hey.Bridge.State
use hey.Bridge.State.{Env, Event, Trace, Bridge, tun_engine_gvisor}
use hey.Bridge.Monad.{emit, ask, modify, gets, pure, ◌>>=◌, ◌>>◌}
use hey.Bridge.Keeps.{Ensures, no_stop}
use hey.Bridge.Calls
use hey.Tun
use hey.Xray
use hey.Adapter.{Adapter, EngineEvent, During, refuses, run_stops, hey_tun2_socks_start}
use hey.Adapter.Alone.{
  is_none, no_stops, launched, outcome, run_stops-no_stops, hey_tun2_socks_start-alone,
}
use hey.Adapter.Alternation.{behind}
use hey.Adapter.Joint.{Schedule, joint, act, Loads, Came}

positive : (n : ℤ) → ltb_ℤ n (pos 576) ≡ false → ltb_ℤ (pos 0) n ≡ true
positive (pos n) h = ground arith
positive (ℤ.negsuc n) h = ground arith

-- Two of the tests.
tested : (e p q r t : Bool) → (e || (not p || (q || (r || t)))) ≡ false → (p ≡ true) × (r ≡ false)
tested false true false false false h = (refl, refl)
tested true p q r t h = cc
tested false false q r t h = cc
tested false true true r t h = cc
tested false true false true t h = cc
tested false true false false true h = cc

lets_through : (e : Bool) → (e || (not true || not true)) ≡ e
lets_through true = refl
lets_through false = refl

-- The adapter refuses nothing that the bridge lets through, but a host with no byte before its first NUL.
refuses-tested :
    (fd : ℤ) (host : Text) (port mtu : ℤ)
    → ltb_ℤ fd (pos 0) ≡ false
    → Tun.invalid_endpoint host port mtu ≡ false
    → refuses fd (c_str host) port mtu ≡ is_empty (c_str host)
unfolding refuses Tun.invalid_endpoint
refuses-tested fd host port mtu h k =
    let t = tested (is_empty host) (ltb_ℤ (pos 0) port) _ (ltb_ℤ mtu (pos 576)) _ k in
    rw (h, t.0, positive mtu t.1) (lets_through (is_empty (c_str host)))

outcome-Came :
    (b fatal : Bool) (fd : ℤ) (host : Text) (port mtu : ℤ) (es : List EngineEvent) (p m : ℕ) (n : ℤ)
    → Came n (
        outcome false fatal fd host port mtu
          (record { running = b; engine = es; asked = p; stopping = m }))
    → (n ≡ pos 0)
      × (behind
            (record { running = b; engine = es; asked = p; stopping = m })
            (outcome false fatal fd host port mtu
              (record { running = b; engine = es; asked = p; stopping = m }))
          ≡ launched fd host port mtu
              (record { running = b; engine = es; asked = p; stopping = m }))
outcome-Came true fatal fd host port mtu es p m n c = (c, refl)
outcome-Came false true fd host port mtu es p m n c = absurd c
outcome-Came false false fd host port mtu es p m n c = (c, refl)

-- A start that came back, of what the bridge lets through.
hey_tun2_socks_start-tested :
    (during : During) (a : Adapter) (fd : ℤ) (host : Text) (port mtu n : ℤ)
    → ltb_ℤ fd (pos 0) ≡ false
    → Tun.invalid_endpoint host port mtu ≡ false
    → is_empty (c_str host) ≡ false
    → no_stops a ≡ true
    → Came n (hey_tun2_socks_start during fd (c_str host) port mtu a)
    → (n ≡ pos 0)
      × (behind a (hey_tun2_socks_start during fd (c_str host) port mtu a)
          ≡ launched fd (c_str host) port mtu a)
hey_tun2_socks_start-tested during a fd host port mtu n h k e q =
    rw
      (
        hey_tun2_socks_start-alone during fd (c_str host) port mtu a q,
        refuses-tested fd host port mtu h k,
        e,
      )
      (outcome-Came a.running during.fatal fd (c_str host) port mtu a.engine a.asked a.stopping n)

launched-no_stops :
    (b : Bool) (fd : ℤ) (host : Text) (port mtu : ℤ) (es : List EngineEvent) (p m : ℕ)
    → (is_none p && is_none m) ≡ true
    → no_stops
        (launched fd host port mtu (record { running = b; engine = es; asked = p; stopping = m }))
      ≡ true
launched-no_stops true fd host port mtu es p m q = q
launched-no_stops false fd host port mtu es p m q = q

-- A call of the start and a line of the log, with no thread in a stop.
joint-launch :
    (w : Schedule) (f : ℕ) (fd : ℤ) (host : Text) (port mtu : ℤ) (level : State.Level) (line : Text)
    (t : Trace) (b : Adapter)
    → no_stops b ≡ true
    → behind (joint w t) (
        hey_tun2_socks_start
          (w (State.called f (State.start_arguments fd host port mtu) ∷ t)).during
          fd
          host
          port
          mtu
          (joint w t))
      ≡ b
    → joint w
        (State.logged level line ∷ State.called f (State.start_arguments fd host port mtu) ∷ t)
      ≡ b
unfolding joint act
joint-launch w f fd host port mtu level line t b q settled =
    let called = State.called f (State.start_arguments fd host port mtu) ∷ t in
    let logged = State.logged level line ∷ called in
    ap (λ a. run_stops (w logged).after (run_stops (w called).after a)) settled
    ∙ ap (run_stops (w logged).after) (run_stops-no_stops (w called).after b q)
    ∙ run_stops-no_stops (w logged).after b q

module _ {env : Env} {w : Schedule} (loads : Loads env w) where
  -- Where the loaded library is the adapter and its starts come back, its start function is known, no
  -- detached stop is left that has not run to its end, and the bridge's tests let the endpoint through
  -- with a host that has a byte before its first NUL, the start answers success and gVisor is the engine
  -- in use; the adapter has started its engine with the key of this endpoint, unless its engine was
  -- running: then it is left with the key it had.
  pub launch_gvisor-launched :
      (s : Bridge) (fd : ℤ) (host : Text) (port mtu : ℤ)
      → is_some s.tun2socks.start ≡ true
      → no_stops (joint w s.trace) ≡ true
      → ltb_ℤ fd (pos 0) ≡ false
      → Tun.invalid_endpoint host port mtu ≡ false
      → is_empty (c_str host) ≡ false
      → Ensures no_stop
          (λ r t.
            (r.ok ≡ true)
            × ((t.tun_running ≡ true)
                × ((t.tun_engine ≡ tun_engine_gvisor)
                    × (joint w t.trace ≡ launched fd (c_str host) port mtu (joint w s.trace)))))
          (Tun.launch_gvisor env fd host port mtu s)
  unfolding Tun.launch_gvisor gets ◌>>=◌
  launch_gvisor-launched s fd host port mtu known none_left h k e = by_start s.tun2socks.start known
    where
      by_start :
          (start : Option ℕ)
          → is_some start ≡ true
          → Ensures no_stop
              (λ r t.
                (r.ok ≡ true)
                × ((t.tun_running ≡ true)
                    × ((t.tun_engine ≡ tun_engine_gvisor)
                        × (joint w t.trace ≡ launched fd (c_str host) port mtu (joint w s.trace)))))
              ((Tun.call_status env start (State.start_arguments fd (c_str host) port mtu)
                  >>= λ result.
                      if not (Tun.is_zero result)
                      then Calls.create_result false (text "tun2socks adapter start failed.")
                      else do
                        Xray.set_tun_running true
                        Tun.set_tun_engine tun_engine_gvisor
                        Calls.create_result true (text "tun2socks adapter started."))
                s)
      by_start none i = cc
      by_start (some f) i =
          unfold Tun.call_status Tun.set_tun_engine Xray.set_tun_running Calls.create_result
            Calls.log ask modify emit pure ◌>>=◌ ◌>>◌ in
          let begun = State.called f (State.start_arguments fd (c_str host) port mtu) ∷ s.trace in
          let (zero_status, settled) =
            hey_tun2_socks_start-tested (w begun).during (joint w s.trace) fd host port mtu
              (env.status s.trace f (State.start_arguments fd (c_str host) port mtu)) h k e
              none_left (loads.status s.trace f fd (c_str host) port mtu) in
          rw zero_status (
            refl,
            (
              refl,
              (
                refl,
                joint-launch w f fd (c_str host) port mtu _ _ s.trace _
                    (launched-no_stops (joint w s.trace).running fd (c_str host) port mtu
                      (joint w s.trace).engine (joint w s.trace).asked (joint w s.trace).stopping
                      none_left)
                    settled,
              ),
            ),
          )
