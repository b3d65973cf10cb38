-- ===== src/Health/Setters.antt =====
-- The stores of single globals keep the invariant, each where the code makes them.
use hey.Bridge.Keeps.{Allowed}
use hey.Prelude.{Bool, true, false, ℤ, arith}
use hey.Codec.Text.{Text}
use hey.Bridge.Monad.{modify}
use hey.Bridge.Keeps.{Keeps, keeps_rules}
use hey.Bridge.State
use hey.Loader.Engines
use hey.Xray
use hey.Singbox
use hey.Tun
use hey.Health.Invariant.{Known, xray, singbox, gvisor, hev, Healthy}
use hey.Health.Helpers.{Keeps-create_result, Keeps-log}

module _ {C : Allowed} {k : Known} where
  pub Keeps-set_tun_running : (b : Bool) → Keeps C (Healthy k) (Xray.set_tun_running b)
  unfolding Xray.set_tun_running modify
  Keeps-set_tun_running b = record { keeps = λ s h. ground arith }

  pub Keeps-set_bytes : (up down : ℤ) → Keeps C (Healthy k) (Xray.set_bytes up down)
  unfolding Xray.set_bytes modify
  Keeps-set_bytes up down = record { keeps = λ s h. ground arith }

  pub Keeps-set_thread :
      (b : Bool) → Keeps C (Healthy k) (Engines.set_hev (λ c. record c { thread = b }))
  unfolding Engines.set_hev modify
  Keeps-set_thread b = record { keeps = λ s h. ground arith }

  pub Keeps-set_message :
      (message : Text) → Keeps C (Healthy k) (modify (λ s. record s { last_message = message }))
  unfolding modify
  Keeps-set_message message = record { keeps = λ s h. ground arith }

  -- A core is marked as stopped at any time, and the data plane as gone.
  pub Keeps-xray_stopped : Keeps C (Healthy k) (Xray.set_xray_running false)
  unfolding Xray.set_xray_running modify
  Keeps-xray_stopped = record { keeps = λ s h. ground arith }

  pub Keeps-singbox_stopped : Keeps C (Healthy k) (Singbox.set_singbox_running false)
  unfolding Singbox.set_singbox_running modify
  Keeps-singbox_stopped = record { keeps = λ s h. ground arith }

  pub Keeps-engine_none : Keeps C (Healthy k) (Tun.set_tun_engine State.tun_engine_none)
  unfolding Tun.set_tun_engine modify
  Keeps-engine_none = record { keeps = λ s h. ground arith }

  pub Keeps-xray_failed : (message : Text) → Keeps C (Healthy k) (Xray.xray_failed message)
  unfolding Xray.xray_failed
  Keeps-xray_failed message = search (keeps_rules, Keeps-xray_stopped, Keeps-create_result)

  pub Keeps-singbox_failed : (message : Text) → Keeps C (Healthy k) (Singbox.singbox_failed message)
  unfolding Singbox.singbox_failed
  Keeps-singbox_failed message = search (keeps_rules, Keeps-singbox_stopped, Keeps-create_result)

  pub Keeps-tun_failed : (message : Text) → Keeps C (Healthy k) (Xray.tun_failed message)
  unfolding Xray.tun_failed
  Keeps-tun_failed message = search (keeps_rules, Keeps-set_tun_running, Keeps-create_result)

  pub Keeps-already_stopped : (message : Text) → Keeps C (Healthy k) (Xray.already_stopped message)
  unfolding Xray.already_stopped
  Keeps-already_stopped message = search (keeps_rules, Keeps-set_tun_running, Keeps-create_result)

  pub Keeps-load_failed : (message : Text) → Keeps C (Healthy k) (Tun.load_failed message)
  unfolding Tun.load_failed
  Keeps-load_failed message =
      search (keeps_rules, Keeps-set_message, Keeps-log, Keeps-create_result)

-- A core or an engine is marked as running where its library is loaded.
module _ {C : Allowed} where
  pub Keeps-xray_running : Keeps C (Healthy xray) (Xray.set_xray_running true)
  unfolding Xray.set_xray_running modify
  Keeps-xray_running = record { keeps = λ s h. ground arith }

  pub Keeps-singbox_running : Keeps C (Healthy singbox) (Singbox.set_singbox_running true)
  unfolding Singbox.set_singbox_running modify
  Keeps-singbox_running = record { keeps = λ s h. ground arith }

  pub Keeps-engine_gvisor : Keeps C (Healthy gvisor) (Tun.set_tun_engine State.tun_engine_gvisor)
  unfolding Tun.set_tun_engine modify
  Keeps-engine_gvisor = record { keeps = λ s h. ground arith }

  pub Keeps-engine_hev : Keeps C (Healthy hev) (Tun.set_tun_engine State.tun_engine_hev)
  unfolding Tun.set_tun_engine modify
  Keeps-engine_hev = record { keeps = λ s h. ground arith }
