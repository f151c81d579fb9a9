-- ===== src/Ws/FrameCodec.antt =====
-- The WebSocket frame codec of wasm/src/lib.rs: `parse_ws_frame` and `encode_ws_frame`.
pub mod Rfc6455
pub mod Unmask
pub mod RoundTrip
pub mod Parse
pub mod Bounds
pub mod Encode
pub mod Overflow
pub mod Panic
use grpcgi.Base.{ℕ, zero, suc, ◌+◌, ◌%◌, bit_and, bit_or, bit_xor, Bool, true, false, not}
use grpcgi.Base.{List, [], ◌∷◌, ◌++◌, length, ltb, leb, ◌==◌, if◌then◌else◌}
use grpcgi.Base.{Outcome, ok, nothing, ◌>>=◌}
use grpcgi.Base.Machine.{Bytes, u8, u16, u64, usize, index, slice, to_be_bytes, from_be_bytes}

-- `[u8; 4]`, the masking key.
pub record MaskKey : Type 0 where
  pub k0 : ℕ
  pub k1 : ℕ
  pub k2 : ℕ
  pub k3 : ℕ

-- `key[i]` for `i` below 4.
abbrev pub key_at : MaskKey → ℕ → ℕ
key_at key zero = key.k0
key_at key (suc zero) = key.k1
key_at key (suc (suc zero)) = key.k2
key_at key (suc (suc (suc _))) = key.k3

-- `raw.iter().enumerate().map(|(i, &b)| b ^ key[i % 4])`, from index `i` on.
unfoldable pub xor_key : MaskKey → ℕ → Bytes → Bytes
xor_key key i [] = []
xor_key key i (b ∷ bs) = bit_xor b (key_at key (i % 4)) ∷ xor_key key (i + 1) bs

-- The `match len_indicator`: the payload's length and the offset behind the length fields.
unfoldable pub payload_length : Bytes → ℕ → Outcome (ℕ × ℕ)
payload_length buf len_indicator =
    if len_indicator == 126
    then (if ltb (length buf) 4
        then nothing
        else do b2 ← index buf 2; b3 ← index buf 3; ok (usize (from_be_bytes 0 (b2 ∷ b3 ∷ [])), 4))
    else if len_indicator == 127
    then (if ltb (length buf) 10 then nothing else do
      b2 ← index buf 2
      b3 ← index buf 3
      b4 ← index buf 4
      b5 ← index buf 5
      b6 ← index buf 6
      b7 ← index buf 7
      b8 ← index buf 8
      b9 ← index buf 9
      ok (usize (from_be_bytes 0 (b2 ∷ b3 ∷ b4 ∷ b5 ∷ b6 ∷ b7 ∷ b8 ∷ b9 ∷ [])), 10))
    else ok (len_indicator, 2)

-- `if masked { … } else { raw_payload.to_vec() }`
unfoldable pub unmask_payload : Bytes → Bool → ℕ → Bytes → Outcome Bytes
unmask_payload buf false mask_offset raw = ok raw
unmask_payload buf true mask_offset raw = do
  k0 ← index buf mask_offset
  k1 ← index buf (mask_offset + 1)
  k2 ← index buf (mask_offset + 2)
  k3 ← index buf (mask_offset + 3)
  ok (xor_key (record { k0 = k0; k1 = k1; k2 = k2; k3 = k3 }) 0 raw)

-- What follows the length fields: the bounds check, the slice and the unmasking.
unfoldable pub take_payload : Bytes → ℕ → Bool → ℕ → ℕ → Outcome (ℕ × Bytes × ℕ)
take_payload buf opcode masked payload_len mask_offset =
    let payload_offset = if masked then mask_offset + 4 else mask_offset in
    let total = usize (payload_offset + payload_len) in
    if ltb (length buf) total then nothing else do
      raw_payload ← slice buf payload_offset total
      payload ← unmask_payload buf masked mask_offset raw_payload
      ok (opcode, payload, total)

-- The opcode, the payload and the frame's length; `nothing` if more bytes are needed.
unfoldable pub parse_ws_frame : Bytes → Outcome (ℕ × Bytes × ℕ)
parse_ws_frame buf = if ltb (length buf) 2 then nothing else do
  b0 ← index buf 0
  b1 ← index buf 1
  (payload_len, mask_offset) ← payload_length buf (bit_and b1 0x7f)
  take_payload buf (bit_and b0 0x0f) (not (bit_and b1 0x80 == 0)) payload_len mask_offset

-- Byte 1 and the extended length, with no mask.
unfoldable pub length_field : ℕ → Bytes
length_field len =
    if ltb len 126
    then u8 len ∷ []
    else if leb len 0xffff
    then 126 ∷ to_be_bytes 2 (u16 len)
    else 127 ∷ to_be_bytes 8 (u64 len)

unfoldable pub encode_ws_frame : ℕ → Bytes → Bytes
encode_ws_frame opcode payload =
    bit_or 0x80 (bit_and opcode 0x0f) ∷ (length_field (length payload) ++ payload)
