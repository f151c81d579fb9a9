-- ===== src/Http.antt =====
-- The HTTP filter of wasm/http-bridge/src/lib.rs.
pub mod Varint
pub mod Proto
pub mod Json
pub mod Filter
pub mod Root
