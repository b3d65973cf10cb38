-- ===== src/Behaviour/Outcomes.antt =====
-- What is said of the globals after a successful start or stop.
pub mod Xray
pub mod Handle
pub mod Singbox
pub mod Plane
use hey.Prelude.{◌≡◌, true, false}
use hey.Bridge.State.{Bridge}

abbrev pub XrayRuns : Bridge → Type 0
XrayRuns s = s.xray_running ≡ true

abbrev pub XrayStopped : Bridge → Type 0
XrayStopped s = (s.xray_running ≡ false) × (s.tun_running ≡ false)

abbrev pub SingboxRuns : Bridge → Type 0
SingboxRuns s = s.singbox_running ≡ true

abbrev pub SingboxStopped : Bridge → Type 0
SingboxStopped s = (s.singbox_running ≡ false) × (s.tun_running ≡ false)

abbrev pub PlaneRuns : Bridge → Type 0
PlaneRuns s = s.tun_running ≡ true
