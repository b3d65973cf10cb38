-- ===== src/Loader.antt =====
-- The lazy loading of the shared libraries (entry/src/main/cpp/napi_init.cpp).
pub mod Xray
pub mod Symbols
pub mod Engines
pub mod Singbox
