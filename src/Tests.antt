-- ===== src/Tests.antt =====
-- Runs at concrete inputs, and the theorems at inputs that meet their hypotheses.
mod Varint
mod FrameCodec
mod FrameProto
mod Stream
mod Merging
mod Connection
mod Search
mod HttpFilter
mod HttpMachine
mod Config
mod WsUnit
