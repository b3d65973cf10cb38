-- ===== src/Life/Calls.antt =====
-- Every call of the module as a step of the life, and sequences of calls as its runs.
use hey.Prelude.{ℕ, ◌≡◌, refl, List, [], ◌∷◌, Bool, true, false, All, map}
use hey.Bridge.State.{Env, Bridge, initial}
use hey.Bridge.Monad.{M}
use hey.Bridge.Keeps.{Ensures, Allowed}
use hey.Health.Invariant.{any, Healthy, initial-IsHealthy}
use hey.Health.Calls.{Needs, handle-Keeps, run-Keeps}
use hey.Behaviour.Answers.{both}
use hey.Module
use hey.Module.{Method, Call, Reply, result, ping, stats}
use hey.Frame.Queries.{is_query, Keeps-query}
use hey.Life.{Life, life, may_refuse, Step, refused, answered, reported, Run, here, next}
use hey.Life.Moves.{life-IsFrame, Moves, Moves-then, Moves-pure, Moves-of_Keeps, Moves-map}
use hey.Life.Xray as XrayMoves
use hey.Life.Singbox as SingboxMoves
use hey.Life.Plane as PlaneMoves
use hey.Life.Stop as StopMoves

-- The flag `ok` of an answer; `getStats` has none.
abbrev pub accepted : Reply → Bool
accepted (result r) = r.ok
accepted (ping p) = p.ok
accepted (stats r) = true

query-may_refuse : (m : Method) → is_query m ≡ true → may_refuse m ≡ true
query-may_refuse Module.get_stats_method h = cc
query-may_refuse Module.stop_tun2socks_method h = cc
query-may_refuse _ h = refl

query-Step : (m : Method) (a : Life) (ok : Bool) → is_query m ≡ true → Step m a ok a
query-Step m a true h = answered h
query-Step m a false h = refused (query-may_refuse m h)

abbrev Steps : Method → Life → M Reply → Type 0
Steps m a h = Moves a (λ r b. Step m a (accepted r) b) h

module _ (env : Env) where
  Moves-query :
      {a : Life} (m : Method) (args : List ℕ)
      → is_query m ≡ true
      → Steps m a (Module.handle env m args)
  Moves-query {a} m args h =
      Moves-of_Keeps (Keeps-query (life-IsFrame a) env m args h)
        (λ r. query-Step m a (accepted r) h)

  Moves-handle : {a : Life} (m : Method) (args : List ℕ) → Steps m a (Module.handle env m args)
  unfolding Module.handle Module.reply
  Moves-handle Module.validate_config_method args =
      Moves-map result (XrayMoves.Turns-validate_config env args)
  Moves-handle Module.set_tun_fd_method args =
      Moves-map result (XrayMoves.Turns-set_tun_fd env args)
  Moves-handle Module.start_xray_method args =
      Moves-map result (XrayMoves.Turns-start_xray env args)
  Moves-handle Module.stop_xray_method args = Moves-map result (XrayMoves.Turns-stop_xray env)
  Moves-handle Module.get_stats_method args =
      Moves-map stats (Moves-of_Keeps (StopMoves.Keeps-get_stats env) (λ r. reported))
  Moves-handle Module.start_tun2socks_method args =
      Moves-map result (PlaneMoves.Turns-start_tun2socks env args)
  Moves-handle Module.start_hev_tun_method args =
      Moves-map result (PlaneMoves.Turns-start_hev_tun env args)
  Moves-handle Module.stop_tun2socks_method args =
      Moves-map result (StopMoves.Turns-stop_tun2socks env)
  Moves-handle Module.singbox_set_tun_fd_method args =
      Moves-map result (SingboxMoves.Turns-singbox_set_tun_fd env args)
  Moves-handle Module.singbox_start_method args =
      Moves-map result (SingboxMoves.Turns-singbox_start env args)
  Moves-handle Module.singbox_stop_method args =
      Moves-map result (SingboxMoves.Turns-singbox_stop env)
  Moves-handle m args = Moves-query m args refl

  pub Moves-run :
      {a : Life} (calls : List Call)
      → Moves a
          (λ rs b. Run (map (λ c. c.method) calls) a (map accepted rs) b)
          (Module.run env calls)
  unfolding Module.run
  Moves-run [] = Moves-pure _ here
  Moves-run (c ∷ calls) =
      Moves-then (Moves-handle c.method c.args)
        λ r b h. Moves-then (Moves-run calls) λ rs d k. Moves-pure _ (next h k)

  -- A call from a state of `Healthy any` stops only as `C` allows, where `C` allows the stops that its
  -- method may need (`Needs`). Where the call returns, in a state of `Healthy any`, which core and
  -- which data plane count as running before and after it are those of a `Step` of its method with its
  -- answer.
  pub handle-Step :
      (C : Allowed) (m : Method) (args : List ℕ) (s : Bridge)
      → Needs env C m
      → Healthy any s
      → Ensures C
          (λ r t. Healthy any t × Step m (life s) (accepted r) (life t))
          (Module.handle env m args s)
  handle-Step C m args s n h =
      both C (Healthy any) (λ r t. Step m (life s) (accepted r) (life t))
        (Module.handle env m args s) ((handle-Keeps env {C = C} m args n).keeps s h)
        ((Moves-handle m args).run s refl)

  -- A sequence of calls from the start of the process stops only as `C` allows, where `C` allows the
  -- stops that its methods may need (`Needs`): a crash only in `setTunFd`, and an endless join only in
  -- `startHevTun` and `stopTun2Socks`. Where it returns, there is an answer for each call, and the
  -- answers and the life at the end are those of a `Run` of the calls' methods from the life in which
  -- nothing runs.
  pub run-Run :
      (C : Allowed) (calls : List Call)
      → All (λ c. Needs env C c.method) calls
      → Ensures C
          (λ rs s.
            Healthy any s
            × Run (map (λ c. c.method) calls) (life initial) (map accepted rs) (life s))
          (Module.run env calls initial)
  run-Run C calls h =
      both C (Healthy any)
        (λ rs s. Run (map (λ c. c.method) calls) (life initial) (map accepted rs) (life s))
        (Module.run env calls initial)
        ((run-Keeps env {C = C} calls h).keeps initial initial-IsHealthy)
        ((Moves-run calls).run initial refl)
