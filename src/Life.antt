-- ===== src/Life.antt =====
-- What ArkTS can rely on: which core and which data plane count as running, and how each call of the
-- module moves that, given what the call answers.
pub mod Moves
pub mod Xray
pub mod Singbox
pub mod Plane
pub mod Stop
pub mod Calls
pub mod Protocol
use hey.Prelude.{ℕ, ◌≡◌, ◌==◌, Bool, true, false, List, [], ◌∷◌}
use hey.Bridge.State.{Bridge, tun_engine_none, tun_engine_gvisor, tun_engine_hev}
use hey.Module
use hey.Module.{Method}
use hey.Frame.Queries.{is_query}

pub record Life : Type 0 where
  pub xray : Bool
  pub singbox : Bool
  pub tun : Bool
  pub engine : ℕ

abbrev pub life : Bridge → Life
life s = record {
  xray = s.xray_running;
  singbox = s.singbox_running;
  tun = s.tun_running;
  engine = s.tun_engine;
}

-- The calls that may refuse and leave everything as it is.
abbrev pub may_refuse : Method → Bool
may_refuse Module.get_stats_method = false
may_refuse Module.stop_tun2socks_method = false
may_refuse _ = true

-- One call: the method, the state before, whether the answer is a success, and the state after.
pub data Step : Method → Life → Bool → Life → Type 0 where
  refused : {m : Method} {a : Life} → may_refuse m ≡ true → Step m a false a
  answered : {m : Method} {a : Life} → is_query m ≡ true → Step m a true a
  validated : {a : Life} → Step Module.validate_config_method a true a
  reported : {a : Life} → Step Module.get_stats_method a true a
  xray_already : {a : Life} → a.xray ≡ true → Step Module.start_xray_method a true a
  xray_started :
      {a : Life} → a.xray ≡ false → Step Module.start_xray_method a true (record a { xray = true })
  xray_idle :
      {a : Life} → a.xray ≡ false → Step Module.stop_xray_method a true (record a { tun = false })
  xray_stopped :
      {a : Life}
      → a.xray ≡ true
      → Step Module.stop_xray_method a true (record a { xray = false; tun = false })
  xray_fd :
      {a : Life} → a.xray ≡ false → Step Module.set_tun_fd_method a true (record a { tun = true })
  xray_fd_lost :
      {a : Life} → a.xray ≡ false → Step Module.set_tun_fd_method a false (record a { tun = false })
  singbox_already : {a : Life} → a.singbox ≡ true → Step Module.singbox_start_method a true a
  singbox_started :
      {a : Life}
      → a.singbox ≡ false
      → Step Module.singbox_start_method a true (record a { singbox = true })
  singbox_idle :
      {a : Life}
      → a.singbox ≡ false
      → Step Module.singbox_stop_method a true (record a { tun = false })
  singbox_stopped :
      {a : Life}
      → a.singbox ≡ true
      → Step Module.singbox_stop_method a true (record a { singbox = false; tun = false })
  singbox_fd :
      {a : Life}
      → a.singbox ≡ false
      → Step Module.singbox_set_tun_fd_method a true (record a { tun = true })
  singbox_fd_lost :
      {a : Life}
      → a.singbox ≡ false
      → Step Module.singbox_set_tun_fd_method a false (record a { tun = false })
  gvisor_already : {a : Life} → a.tun ≡ true → Step Module.start_tun2socks_method a true a
  gvisor_started :
      {a : Life}
      → a.tun ≡ false
      → Step Module.start_tun2socks_method a true
          (record a { tun = true; engine = tun_engine_gvisor })
  hev_already : {a : Life} → a.tun ≡ true → Step Module.start_hev_tun_method a true a
  hev_started :
      {a : Life}
      → a.tun ≡ false
      → Step Module.start_hev_tun_method a true (record a { tun = true; engine = tun_engine_hev })
  plane_idle : {a : Life} → a.tun ≡ false → Step Module.stop_tun2socks_method a true a
  plane_stopped :
      {a : Life}
      → a.tun ≡ true
      → Step Module.stop_tun2socks_method a true
          (record a { tun = false; engine = tun_engine_none })
  gvisor_lost :
      {a : Life}
      → a.tun ≡ true
      → (a.engine == tun_engine_hev) ≡ false
      → Step Module.stop_tun2socks_method a false
          (record a { tun = false; engine = tun_engine_none })

-- A sequence of calls, with their answers.
pub data Run : List Method → Life → List Bool → Life → Type 0 where
  here : {a : Life} → Run [] a [] a
  next :
      {m : Method} {ms : List Method} {a b c : Life} {ok : Bool} {oks : List Bool}
      → Step m a ok b
      → Run ms b oks c
      → Run (m ∷ ms) a (ok ∷ oks) c
