-- ===== src/Codec.antt =====
-- The pure text functions of the bridge (entry/src/main/cpp/napi_init.cpp).
pub mod Text
pub mod Base64
pub mod Decimal
pub mod Json
pub mod Response
pub mod Delay
pub mod Message
