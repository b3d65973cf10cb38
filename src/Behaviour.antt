-- ===== src/Behaviour.antt =====
-- What the bridge of entry/src/main/cpp/napi_init.cpp does in runs over several of its parts.
pub mod Answers
pub mod Cores
pub mod Crash
pub mod DataPlane
pub mod Outcomes
pub mod Pings
pub mod Reports
pub mod Files
pub mod TestConfig
pub mod PingFiles
pub mod Transport
