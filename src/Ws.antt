-- ===== src/Ws.antt =====
-- The WebSocket bridge filter (wasm/src/lib.rs).
pub mod Varint
pub mod FrameCodec
pub mod FrameProto
pub mod Search
pub mod Upgrade
pub mod Json
pub mod Stream
pub mod Root
pub mod UnitTests
