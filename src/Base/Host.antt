-- ===== src/Base/Host.antt =====
-- What a callback of a proxy-wasm filter answers to Envoy.
pub data Action : Type 0 where
  continue pause : Action
