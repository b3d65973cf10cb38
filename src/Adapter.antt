-- ===== src/Adapter.antt =====
-- The gVisor adapter: entry/src/main/cpp/tun2socks_adapter/main.go, which the bridge loads as
-- libheytun2socks.so. What it asks of the package `engine` is a list of events, the latest first.
pub mod Alone
pub mod Alternation
pub mod Joint
pub mod Safety
pub mod Agrees
pub mod Launch
use hey.Prelude.{
  ℕ, zero, suc, List, [], ◌∷◌, ◌++◌, Bool, true, false, not, ◌||◌, Option, none, some,
}
use hey.Prelude.{ltb_ℤ, if◌then◌else◌, is_empty, ℤ, pos, negsuc}
use hey.Codec.Text.{Text, text}
use hey.Codec.Decimal.{decimal}

-- `engine.Key`, of the fields that are set.
pub record Key : Type 0 where
  pub mtu : ℤ
  pub device : Text
  pub proxy : Text
  pub log_level : Text
  pub tcp_moderate_receive_buffer : Bool

-- `engine.Insert(key)`, `engine.Start()` and `engine.Stop()`.
pub data EngineEvent : Type 0 where
  inserted : Key → EngineEvent
  started stopped : EngineEvent

-- The flag `running`, and what was asked of the engine; with the threads in `stopTun2Socks` that have
-- not swapped the flag yet, and those that have found it set and not called `engine.Stop()` yet.
pub record Adapter : Type 0 where
  pub running : Bool
  pub engine : List EngineEvent
  pub asked : ℕ
  pub stopping : ℕ

unfoldable pub ask_engine : EngineEvent → Adapter → Adapter
ask_engine e a = record a { engine = e ∷ a.engine }

-- The error of a start, with what its text shows.
pub data StartError : Type 0 where
  invalid_arguments : ℤ → Text → ℤ → ℤ → StartError

-- `%d` of an `int32`.
unfoldable pub sprint_int : ℤ → Text
sprint_int (pos n) = decimal n
sprint_int (negsuc n) = b'-' ∷ decimal (suc n)

unfoldable pub refuses : ℤ → Text → ℤ → ℤ → Bool
refuses tun_fd socks_host socks_port mtu =
    ltb_ℤ tun_fd (pos 0)
    || (is_empty socks_host || (not (ltb_ℤ (pos 0) socks_port) || not (ltb_ℤ (pos 0) mtu)))

unfoldable pub engine_key : ℤ → Text → ℤ → ℤ → Key
engine_key tun_fd socks_host socks_port mtu = record {
  mtu = mtu;
  device = text "fd://" ++ sprint_int tun_fd;
  proxy = text "socks5://" ++ (socks_host ++ (text ":" ++ sprint_int socks_port));
  log_level = text "warn";
  tcp_moderate_receive_buffer = true;
}

-- The two steps of `if running.Swap(false) { engine.Stop() }`, between which other threads run.
-- `engine.Stop()` may take long: its step is where it is through.
pub data StopStep : Type 0 where
  swaps stops : StopStep

swap_running : ℕ → Adapter → Adapter
swap_running zero a = a
swap_running (suc n) a =
    if a.running
    then record a { running = false; asked = n; stopping = suc a.stopping }
    else record a { asked = n }

stop_engine : ℕ → Adapter → Adapter
stop_engine zero a = a
stop_engine (suc n) a = record a { engine = stopped ∷ a.engine; stopping = n }

-- One step of a thread in `stopTun2Socks`, nothing where no thread is there.
unfoldable pub stop_tun2socks : StopStep → Adapter → Adapter
unfolding swap_running stop_engine
stop_tun2socks swaps a = swap_running a.asked a
stop_tun2socks stops a = stop_engine a.stopping a

unfoldable pub run_stops : List StopStep → Adapter → Adapter
run_stops [] a = a
run_stops (k ∷ ks) a = run_stops ks (stop_tun2socks k a)

-- What happens during a start: the steps of the threads that stop, and whether `engine.Start()` fails,
-- which ends the process (`log.Fatal`).
pub record During : Type 0 where
  pub before_insert : List StopStep
  pub before_start : List StopStep
  pub before_store : List StopStep
  pub fatal : Bool

-- `none` where the process ends.
unfoldable pub start_tun2socks :
    During → ℤ → Text → ℤ → ℤ → Adapter → Option (Option StartError × Adapter)
start_tun2socks during tun_fd socks_host socks_port mtu a =
    if a.running
    then some (none, a)
    else if refuses tun_fd socks_host socks_port mtu
    then some (some (invalid_arguments tun_fd socks_host socks_port mtu), a)
    else let ready =
        ask_engine (inserted (engine_key tun_fd socks_host socks_port mtu))
          (run_stops during.before_insert a) in
      let begun = ask_engine started (run_stops during.before_start ready) in
      if during.fatal
      then none
      else some (none, record (run_stops during.before_store begun) { running = true })

unfoldable pub hey_tun2_socks_start : During → ℤ → Text → ℤ → ℤ → Adapter → Option (ℤ × Adapter)
hey_tun2_socks_start during tun_fd socks_host socks_port mtu a =
    elim (start_tun2socks during tun_fd socks_host socks_port mtu a) [
      | none ↦ none
      | some (err, b) ↦ some (elim err [ none ↦ pos 0 | some e ↦ negsuc 0 ], b)
    ]

-- The call of a stop, whose steps follow.
unfoldable pub hey_tun2_socks_stop : Adapter → Adapter
hey_tun2_socks_stop a = record a { asked = suc a.asked }

-- As the library is loaded.
abbrev pub idle : Adapter
idle = record { running = false; engine = []; asked = 0; stopping = 0 }
