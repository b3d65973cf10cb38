-- ===== src/Behaviour/DataPlane.antt =====
-- Stopping the TUN data plane, and the order of `stopXray` and `stopTun2Socks`.
use hey.Prelude.{ap, ◌∙◌, pos, ℕ, List, ◌∷◌, ◌≡◌, refl, Bool, true, false, some, arith, is_some}
use hey.Prelude.{ℤ, ◌&&◌, ◌||◌, ◌==◌, []}
use hey.Codec.Text.{text, c_str}
use hey.Bridge.State.{
  Env, Bridge, Event, Level, Arguments, tun_engine_none, tun_engine_hev, tun_engine_gvisor,
}
use hey.Bridge.State
use hey.Bridge.Monad.{success, Outcome, done, blocked, gets, pure, modify, emit, block, ◌>>=◌, ◌>>◌}
use hey.Bridge.Calls
use hey.Loader.Engines
use hey.Xray
use hey.Tun
use hey.Behaviour.Crash.{Inheritable, >>=-done, >>-done, make_fd_inheritable_ok}

-- The bridge after `create_result`.
abbrev pub said : Level → Calls.NapiResult → Bridge → Bridge
said level r s = record s {
  last_message = r.message;
  trace = Event.logged level (c_str r.message) ∷ s.trace;
}

abbrev pub hev_stopped : Calls.NapiResult
hev_stopped = record { ok = true; message = text "hev tun stop requested." }

-- Stopping a running hev engine whose main returns: the quit function is called before the thread
-- is joined, and afterwards no engine counts as running and no thread is left to join.
pub stop_tun2socks-hev :
    (env : Env) (s : Bridge) (quit : ℕ)
    → s.tun_running ≡ true
    → s.tun_engine ≡ tun_engine_hev
    → s.hev.quit ≡ some quit
    → s.hev.thread ≡ true
    → env.hev_main_returns (Event.called quit Arguments.no_arguments ∷ s.trace) ≡ true
    → Tun.stop_tun2socks env s
      ≡ done hev_stopped (
          said Level.info hev_stopped (record s {
            tun_running = false;
            tun_engine = tun_engine_none;
            hev = record s.hev { thread = false };
            trace = Event.thread_joined ∷ Event.called quit Arguments.no_arguments ∷ s.trace;
          }))
unfolding Tun.stop_tun2socks Tun.stop_hev Tun.call_if_some Tun.join_hev_thread Tun.set_tun_engine
    Xray.set_tun_running Engines.set_hev Calls.create_result Calls.log gets pure modify emit ◌>>=◌
    ◌>>◌
stop_tun2socks-hev env s quit running engine q thread returns = ground arith

abbrev pub is_blocked {ℓ} : {A : Type ℓ} → Outcome A → Bool
is_blocked (blocked s) = true
is_blocked _ = false

abbrev pub xray_stopped : Calls.NapiResult
xray_stopped = record { ok = true; message = text "Xray already stopped." }

abbrev pub plane_stopped : Calls.NapiResult
plane_stopped = record { ok = true; message = text "tun data plane already stopped." }

-- While Xray is not running, `stopXray` only forgets that the data plane runs. A `stopTun2Socks`
-- that follows reports success, yet calls, detaches and joins nothing: the engine and its thread
-- stay as they were.
pub stop_tun2socks-stop_xray :
    (env : Env) (s : Bridge)
    → s.xray_running ≡ false
    → (Xray.stop_xray env >>= λ _. Tun.stop_tun2socks env) s
      ≡ done plane_stopped (
          said Level.info plane_stopped
            (said Level.info xray_stopped (record s { tun_running = false })))
unfolding Tun.stop_tun2socks Xray.stop_xray Xray.already_stopped Xray.set_tun_running
    Calls.create_result Calls.log gets pure modify emit ◌>>=◌ ◌>>◌
stop_tun2socks-stop_xray env s h = ground arith

launch_hev_blocked :
    (env : Env) (s : Bridge) (config : List ℕ) (fd : ℤ)
    → s.hev.thread ≡ true
    → env.hev_main_returns s.trace ≡ false
    → is_blocked (Tun.launch_hev env config fd s) ≡ true
unfolding Tun.launch_hev Tun.join_hev_thread block gets ◌>>=◌ ◌>>◌
launch_hev_blocked env s config fd h r = ground arith

load_hev_core_again :
    (env : Env) (s : Bridge)
    → (is_some s.hev.handle && (is_some s.hev.start && is_some s.hev.quit)) ≡ true
    → Engines.load_hev_core env s ≡ done (success tt) s
unfolding Engines.load_hev_core gets pure ◌>>=◌
load_hev_core_again env s loaded = ground arith

set_bytes_done :
    (up down : ℤ) (s : Bridge)
    → Xray.set_bytes up down s ≡ done tt (record s { upload_bytes = up; download_bytes = down })
unfolding Xray.set_bytes modify
set_bytes_done up down s = refl

-- Has the quit function been called since the engine's thread was last started?
abbrev pub told : ℕ → State.Trace → Bool
told quit (State.called f State.no_arguments ∷ t) = f == quit || told quit t
told quit (State.thread_started f args ∷ t) = false
told quit (_ ∷ t) = told quit t
told quit [] = false

-- With the engine loaded, a descriptor that can be made inheritable, an engine whose main returns just
-- when its quit function was called since the thread was started, and a thread left over for which it
-- was not, the code of `StartHevTun` behind its tests waits forever for that thread.
pub run_hev_blocked :
    (env : Env) (s : Bridge) (quit : ℕ) (config : List ℕ) (fd : ℤ)
    → Inheritable env fd
    → ((t : State.Trace) → env.hev_main_returns t ≡ told quit t)
    → (is_some s.hev.handle && is_some s.hev.start) ≡ true
    → s.hev.quit ≡ some quit
    → s.hev.thread ≡ true
    → told quit s.trace ≡ false
    → is_blocked (Tun.run_hev env config fd s) ≡ true
unfolding Tun.run_hev
run_hev_blocked env s quit config fd inheritable waits loaded known thread untold =
    let s' = record s { upload_bytes = pos 0; download_bytes = pos 0 } in
    let whole : (is_some s.hev.handle && (is_some s.hev.start && is_some s.hev.quit)) ≡ true =
      rw known (ground (arith, loaded)) in
    let (t, made, _, same, handed) = make_fd_inheritable_ok env fd s' inheritable in
    ap (is_blocked {A = Calls.NapiResult}) (
      >>-done _ _ s (set_bytes_done _ _ s)
      ∙ >>=-done _ _ s' (load_hev_core_again env s' whole)
      ∙ >>=-done _ _ s' made)
    ∙ launch_hev_blocked env t config fd (ap (λ (h : State.HevCore). h.thread) same ∙ thread)
        (waits t.trace ∙ ap (told quit) handed.1 ∙ untold)
