-- ===== src/Life/Protocol.antt =====
-- What a client knows from the answers alone: which core runs, and when the flag of the data plane
-- agrees with its engine.
use hey.Prelude.{◌≡◌, refl, sym, List, [], ◌∷◌, Bool, true, false, not, ◌==◌, All, map}
use hey.Bridge.State.{Env, Bridge, initial, tun_engine_none}
use hey.Bridge.Monad.{Outcome, done, crashed, blocked}
use hey.Bridge.Keeps.{Ensures, Allowed}
use hey.Health.Calls.{Needs}
use hey.Module
use hey.Module.{Method, Call}
use hey.Frame.Queries.{is_query}
use hey.Life
use hey.Life.{Life, Step, Run}
use hey.Life.Calls.{accepted, run-Run}

-- Whether a core runs after a call: a success of its start or of its stop decides.
abbrev pub xray_after : Method → Bool → Bool → Bool
xray_after Module.start_xray_method true b = true
xray_after Module.stop_xray_method true b = false
xray_after _ _ b = b

abbrev pub singbox_after : Method → Bool → Bool → Bool
singbox_after Module.singbox_start_method true b = true
singbox_after Module.singbox_stop_method true b = false
singbox_after _ _ b = b

-- The same for a sequence of calls and their answers.
unfoldable pub replay : (Method → Bool → Bool → Bool) → List Method → List Bool → Bool → Bool
replay f (m ∷ ms) (ok ∷ oks) b = replay f ms oks (f m ok b)
replay f _ _ b = b

refused-xray : (m : Method) (b : Bool) → xray_after m false b ≡ b
refused-xray Module.start_xray_method b = refl
refused-xray Module.stop_xray_method b = refl
refused-xray _ b = refl

query-xray : (m : Method) (b : Bool) → is_query m ≡ true → xray_after m true b ≡ b
query-xray Module.start_xray_method b h = cc
query-xray Module.stop_xray_method b h = cc
query-xray _ b h = refl

refused-singbox : (m : Method) (b : Bool) → singbox_after m false b ≡ b
refused-singbox Module.singbox_start_method b = refl
refused-singbox Module.singbox_stop_method b = refl
refused-singbox _ b = refl

query-singbox : (m : Method) (b : Bool) → is_query m ≡ true → singbox_after m true b ≡ b
query-singbox Module.singbox_start_method b h = cc
query-singbox Module.singbox_stop_method b h = cc
query-singbox _ b h = refl

Step-xray : {m : Method} {a b : Life} {ok : Bool} → Step m a ok b → b.xray ≡ xray_after m ok a.xray
Step-xray (Life.refused {m} {a} h) = sym (refused-xray m a.xray)
Step-xray (Life.answered {m} {a} h) = sym (query-xray m a.xray h)
Step-xray (Life.xray_already on) = on
Step-xray (Life.xray_idle off) = off
Step-xray _ = refl

Step-singbox :
    {m : Method} {a b : Life} {ok : Bool} → Step m a ok b → b.singbox ≡ singbox_after m ok a.singbox
Step-singbox (Life.refused {m} {a} h) = sym (refused-singbox m a.singbox)
Step-singbox (Life.answered {m} {a} h) = sym (query-singbox m a.singbox h)
Step-singbox (Life.singbox_already on) = on
Step-singbox (Life.singbox_idle off) = off
Step-singbox _ = refl

Run-xray :
    {ms : List Method} {a b : Life} {oks : List Bool}
    → Run ms a oks b
    → b.xray ≡ replay xray_after ms oks a.xray
unfolding replay
Run-xray Life.here = refl
Run-xray (Life.next h k) = rw (← (Step-xray h)) (Run-xray k)

Run-singbox :
    {ms : List Method} {a b : Life} {oks : List Bool}
    → Run ms a oks b
    → b.singbox ≡ replay singbox_after ms oks a.singbox
unfolding replay
Run-singbox Life.here = refl
Run-singbox (Life.next h k) = rw (← (Step-singbox h)) (Run-singbox k)

-- The calls that set the flag of the data plane without the engine.
abbrev pub flag_only : Method → Bool
flag_only Module.stop_xray_method = true
flag_only Module.set_tun_fd_method = true
flag_only Module.singbox_stop_method = true
flag_only Module.singbox_set_tun_fd_method = true
flag_only _ = false

abbrev pub Plane : Life → Type 0
Plane a = a.tun ≡ not (a.engine == tun_engine_none)

Step-Plane :
    {m : Method} {a b : Life} {ok : Bool} → Step m a ok b → flag_only m ≡ false → Plane a → Plane b
Step-Plane (Life.xray_idle off) f h = cc
Step-Plane (Life.xray_stopped on) f h = cc
Step-Plane (Life.xray_fd off) f h = cc
Step-Plane (Life.xray_fd_lost off) f h = cc
Step-Plane (Life.singbox_idle off) f h = cc
Step-Plane (Life.singbox_stopped on) f h = cc
Step-Plane (Life.singbox_fd off) f h = cc
Step-Plane (Life.singbox_fd_lost off) f h = cc
Step-Plane (Life.gvisor_started off) f h = refl
Step-Plane (Life.hev_started off) f h = refl
Step-Plane (Life.plane_stopped on) f h = refl
Step-Plane (Life.gvisor_lost on other) f h = refl
Step-Plane (Life.refused r) f h = h
Step-Plane (Life.answered q) f h = h
Step-Plane Life.validated f h = h
Step-Plane Life.reported f h = h
Step-Plane (Life.xray_already on) f h = h
Step-Plane (Life.xray_started off) f h = h
Step-Plane (Life.singbox_already on) f h = h
Step-Plane (Life.singbox_started off) f h = h
Step-Plane (Life.gvisor_already on) f h = h
Step-Plane (Life.hev_already on) f h = h
Step-Plane (Life.plane_idle off) f h = h

Run-Plane :
    (calls : List Call) {a b : Life} {oks : List Bool}
    → Run (map (λ c. c.method) calls) a oks b
    → All (λ c. flag_only c.method ≡ false) calls
    → Plane a
    → Plane b
Run-Plane [] Life.here f h = h
Run-Plane (c ∷ calls) (Life.next s r) (f, fs) h = Run-Plane calls r fs (Step-Plane s f h)

done_map {ℓ} :
    {A : Type ℓ} (C : Allowed) (P Q : A → Bridge → Type 0) (o : Outcome A)
    → ((a : A) (t : Bridge) → P a t → Q a t)
    → Ensures C P o
    → Ensures C Q o
done_map C P Q (done a t) w h = w a t h
done_map C P Q (crashed t) w h = h
done_map C P Q (blocked t) w h = h

abbrev pub methods : List Call → List Method
methods calls = map (λ c. c.method) calls

module _ (env : Env) where
  -- A sequence of calls from the start of the process stops only as `C` allows, where `C` allows the
  -- stops that its methods may need (`Needs`). Where it returns, which core counts as running is what
  -- the answers tell: for Xray, the last success of `startXray` or `stopXray` decides, and for sing-box
  -- that of `singboxStart` or `singboxStop`; every other call and every failure changes neither.
  pub run-replay :
      (C : Allowed) (calls : List Call)
      → All (λ c. Needs env C c.method) calls
      → Ensures C
          (λ rs s.
            (s.xray_running ≡ replay xray_after (methods calls) (map accepted rs) false)
            × (s.singbox_running ≡ replay singbox_after (methods calls) (map accepted rs) false))
          (Module.run env calls initial)
  unfolding initial
  run-replay C calls h =
      done_map C _ _ (Module.run env calls initial) (λ rs t k. (Run-xray k.1, Run-singbox k.1))
        (run-Run env C calls h)

  -- A sequence of calls without `setTunFd`, `stopXray`, `singboxSetTunFd` and `singboxStop` from the
  -- start of the process stops only as `C` allows, where `C` allows the joins that its methods may need
  -- (`Needs`). Where it returns, the data plane counts as running just when an engine is in use.
  pub run-Plane :
      (C : Allowed) (calls : List Call)
      → All (λ c. Needs env C c.method) calls
      → All (λ c. flag_only c.method ≡ false) calls
      → Ensures C
          (λ _ s. s.tun_running ≡ not (s.tun_engine == tun_engine_none))
          (Module.run env calls initial)
  unfolding initial
  run-Plane C calls n h =
      done_map C _ _ (Module.run env calls initial) (λ rs t k. Run-Plane calls k.1 h refl)
        (run-Run env C calls n)
