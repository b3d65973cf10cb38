-- ===== src/Bridge.antt =====
-- The state of the bridge and its calls into the system (entry/src/main/cpp/napi_init.cpp).
pub mod State
pub mod Monad
pub mod Calls
pub mod Keeps
