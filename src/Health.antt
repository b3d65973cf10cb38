-- ===== src/Health.antt =====
-- What holds of the bridge between two calls (entry/src/main/cpp/napi_init.cpp), and that the
-- calls keep it.
pub mod Invariant
pub mod Helpers
pub mod Loading
pub mod Effects
pub mod Queries
pub mod Setters
pub mod XrayHandlers
pub mod SingboxHandlers
pub mod TunHandlers
pub mod Calls
