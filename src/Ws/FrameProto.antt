-- ===== src/Ws/FrameProto.antt =====
-- The codec of the `Frame` message of wasm/src/lib.rs: `encode_frame_proto`, `decode_frame_proto`
-- and `skip_field`. Where `i + n` is written without wrap-around, `n` bytes have been read or
-- checked behind `i`, so the sum is at most `buf.len()`, or is compared with it and is at most
-- `buf.len() + 8`, below 2^32.
pub mod Arm
pub mod Decode
pub mod RoundTrip
pub mod Wrap
use grpcgi.Base.{ℕ, zero, suc, ◌+◌, ◌/◌, bit_and, Bool, true, false, not, ◌&&◌}
use grpcgi.Base.{
  [], ◌∷◌, ◌++◌, length, ltb, ◌==◌, if◌then◌else◌, Outcome, ok, nothing, stuck, ◌>>=◌,
}
use grpcgi.Base.Machine.{Bytes, u8, u32, u64, usize, slice}
use grpcgi.Ws.Varint.{write_varint, read_varint}

unfoldable pub encode_frame_proto : Bytes → Bool → Bytes
encode_frame_proto payload binary =
    let proto =
      if length payload == 0
      then []
      else write_varint (0x0a ∷ []) (u64 (length payload)) ++ payload in
    if binary then proto ++ 0x10 ∷ 0x01 ∷ [] else proto

-- The end of a length-delimited field whose content starts at `i`; the sum wraps.
unfoldable pub field_end : Bytes → ℕ → ℕ → Outcome ℕ
field_end buf i len =
    if ltb (length buf) (usize (i + usize len)) then nothing else ok (usize (i + usize len))

unfoldable pub skip_field : Bytes → ℕ → ℕ → Outcome ℕ
skip_field buf i wire_type =
    if wire_type == 0
    then (do (_, n) ← read_varint buf i; ok (i + n))
    else if wire_type == 1
    then (if ltb (length buf) (i + 8) then nothing else ok (i + 8))
    else if wire_type == 2
    then (do (len, n) ← read_varint buf i; field_end buf (i + n) len)
    else if wire_type == 5
    then (if ltb (length buf) (i + 4) then nothing else ok (i + 4))
    else nothing

-- The `match (field_number, wire_type)` behind the tag: the new `i`, `payload` and `binary`.
unfoldable pub decode_arm : Bytes → ℕ → ℕ → ℕ → Bytes → Bool → Outcome (ℕ × Bytes × Bool)
decode_arm proto i field_number wire_type payload binary =
    if field_number == 1 && wire_type == 2
    then (do
      (len, n) ← read_varint proto i
      end ← field_end proto (i + n) len
      payload' ← slice proto (i + n) end
      ok (end, payload', binary))
    else if field_number == 2 && wire_type == 0
    then (do (v, n) ← read_varint proto i; ok (i + n, payload, not (v == 0)))
    else (do i' ← skip_field proto i wire_type; ok (i', payload, binary))

-- One round of the loop.
unfoldable pub decode_round : Bytes → ℕ → Bytes → Bool → Outcome (ℕ × Bytes × Bool)
decode_round proto i payload binary = do
  (tag_and_wire, n) ← read_varint proto i
  let wire_type = u8 (bit_and tag_and_wire 0x07)
  let field_number = u32 (tag_and_wire / 8)
  decode_arm proto (i + n) field_number wire_type payload binary

-- `while i < proto.len()`, for as many rounds as the fuel says.
unfoldable pub decode_loop : ℕ → Bytes → ℕ → Bytes → Bool → Outcome (Bytes × Bool)
decode_loop zero proto i payload binary =
    if ltb i (length proto) then stuck else ok (payload, binary)
decode_loop (suc fuel) proto i payload binary =
    let rest = decode_round proto i payload binary >>= λ r. decode_loop fuel proto r.0 r.1 r.2 in
    if ltb i (length proto) then rest else ok (payload, binary)

-- Each round reads a byte at least, so `data.len()` rounds are enough where no length wraps.
unfoldable pub decode_frame_proto : Bytes → Outcome (Bytes × Bool)
decode_frame_proto data' = decode_loop (length data') data' 0 [] false
