-- ===== src/Valid/Calls.antt =====
-- Every call of the module, and every sequence of calls, asks only what is valid.
use hey.Prelude.{ℕ, ◌≡◌, refl, List, [], ◌∷◌, true, All}
use hey.Bridge.State.{Env, Trace, initial}
use hey.Bridge.Monad.{M}
use hey.Bridge.Keeps.{Ensures, Allowed, Keeps->>=, Keeps-pure}
use hey.Module
use hey.Module.{Method, Call, Reply}
use hey.Frame.Queries.{is_query, Keeps-query}
use hey.Health.Invariant.{any, Healthy, initial-IsHealthy}
use hey.Health.Calls.{Needs, run-Keeps}
use hey.Behaviour.Answers.{both}
use hey.Valid.Rules.{Past, Admits, frame}
use hey.Valid.Cores
use hey.Valid.Plane
use hey.Valid.DataPlane
use hey.Valid.DataPlane.{DataPlane}
use hey.Valid.Starts.{Kept-DataPlane}
use hey.Valid.Fds.{Kept}

Admits-reply {ℓ} :
    {A : Type ℓ} {P : ℕ → Trace → Type 0} (f : A → Reply) {m : M A}
    → Admits P m
    → Admits P (Module.reply f m)
unfolding Module.reply
Admits-reply f h = Keeps->>= h (λ a. Keeps-pure _)

module _ {env : Env} {P : ℕ → Trace → Type 0} (d : DataPlane env P) where
  Admits-query :
      (m : Method) (args : List ℕ) → is_query m ≡ true → Admits P (Module.handle env m args)
  Admits-query = Keeps-query (frame d.closed) env

  Admits-handle : (m : Method) (args : List ℕ) → Admits P (Module.handle env m args)
  unfolding Module.handle
  Admits-handle Module.validate_config_method args =
      Admits-reply _ (Cores.Admits-validate_config d.closed env args)
  Admits-handle Module.set_tun_fd_method args =
      Admits-reply _ (Cores.Admits-set_tun_fd d.closed env args)
  Admits-handle Module.start_xray_method args =
      Admits-reply _ (Cores.Admits-start_xray d.closed env args)
  Admits-handle Module.stop_xray_method args = Admits-reply _ (Cores.Admits-stop_xray d.closed env)
  Admits-handle Module.get_stats_method args = Admits-reply _ (Plane.Admits-get_stats d.closed env)
  Admits-handle Module.start_tun2socks_method args =
      Admits-reply _ (DataPlane.Admits-start_tun2socks d args)
  Admits-handle Module.start_hev_tun_method args =
      Admits-reply _ (DataPlane.Admits-start_hev_tun d args)
  Admits-handle Module.stop_tun2socks_method args =
      Admits-reply _ (DataPlane.Admits-stop_tun2socks d)
  Admits-handle Module.singbox_set_tun_fd_method args =
      Admits-reply _ (Cores.Admits-singbox_set_tun_fd d.closed env args)
  Admits-handle Module.singbox_start_method args =
      Admits-reply _ (Cores.Admits-singbox_start d.closed env args)
  Admits-handle Module.singbox_stop_method args =
      Admits-reply _ (Cores.Admits-singbox_stop d.closed env)
  Admits-handle m args = Admits-query m args refl

  pub Admits-run : (calls : List Call) → Admits P (Module.run env calls)
  unfolding Module.run
  Admits-run [] = Keeps-pure _
  Admits-run (c ∷ calls) =
      Keeps->>= (Admits-handle c.method c.args) λ r. Keeps->>= (Admits-run calls) λ rs. Keeps-pure _

module _ (env : Env) where
  -- A sequence of calls from the start of the process stops only as `C` allows, where `C` allows the
  -- stops that its methods may need (`Needs`). Where it returns, everything that it asked was `proper`
  -- where it asked it: gVisor and the hev thread were started only on an fd that is not negative and
  -- from which `FD_CLOEXEC`, the lowest bit, had been cleared before by a call that did not fail; gVisor
  -- was given a port from 1 to 65535 and an mtu from 576 to 1500, and hev a configuration that is not
  -- empty; a number given to another function of a library is not negative; and the flags of an fd
  -- were read and set only for one that is not negative, and set only without `FD_CLOEXEC`.
  pub run-valid :
      (C : Allowed) (calls : List Call)
      → All (λ c. Needs env C c.method) calls
      → Ensures C (λ _ s. Healthy any s × Past (Kept env) s) (Module.run env calls initial)
  unfolding initial
  run-valid C calls h =
      both C (Healthy any) (λ _ s. Past (Kept env) s) (Module.run env calls initial)
        ((run-Keeps env {C = C} calls h).keeps initial initial-IsHealthy)
        ((Admits-run (Kept-DataPlane env) calls).keeps initial (record { past = tt }))
