-- ===== src/Ws/FrameProto/Decode.antt =====
-- `decode_frame_proto` on every well-formed protobuf message: fields 1 and 2 are taken, the last of
-- each counts, and all other fields are skipped.
use grpcgi.Base.{ℕ, zero, suc, ◌+◌, ◌*◌, ◌/◌, ◌^◌, ◌≤◌, ◌<◌, arith, ◌≡◌, sym, ◌∙◌}
use grpcgi.Base.{Bool, false, List, [], ◌∷◌, ◌++◌, length, length-append, append_assoc}
use grpcgi.Base.{ok, All, ◌>>=◌, le→not_ltb, lt→ltb, bit_and}
use grpcgi.Base.Bits.{bit_and-0x07}
use grpcgi.Base.Machine.{Bytes, IsSlice, u8, u32}
use grpcgi.Wire.Varint.{varint}
use grpcgi.Wire.Fields.{Field, varint_field, fixed64_field, len_field, fixed32_field, IsField}
use grpcgi.Wire.Fields.{
  field_number, wire_type, content_bytes, field_tag, field_bytes, message_bytes,
}
use grpcgi.Wire.Fields.{length-field_bytes}
use grpcgi.Ws.Varint.Laws.{read_varint-varint}
use grpcgi.Ws.FrameProto.{decode_round, decode_loop}
use grpcgi.Ws.FrameProto.{decode_frame_proto}
use grpcgi.Ws.FrameProto.Arm.{apply_field, apply_fields, arm-content}

pub tag_parts :
    (n w : ℕ)
    → n < 2 ^ 29
    → w < 8
    → (u8 (bit_and (n * 8 + w) 0x07) ≡ w) × (u32 ((n * 8 + w) / 8) ≡ n)
tag_parts n w hn hw = omega (arith, bit_and-0x07 (n * 8 + w))

wire_type-lt : (f : Field) → wire_type f < 8
wire_type-lt (varint_field n v) = omega arith
wire_type-lt (fixed64_field n c) = omega arith
wire_type-lt (len_field n c) = omega arith
wire_type-lt (fixed32_field n c) = omega arith

-- One round of the loop reads one field.
round-field_bytes :
    (before after : Bytes) (f : Field) (payload : Bytes) (binary : Bool)
    → IsField f
    → IsSlice (before ++ (field_bytes f ++ after))
    → let r = apply_field f (payload, binary) in
      decode_round (before ++ (field_bytes f ++ after)) (length before) payload binary
      ≡ ok (length (before ++ field_bytes f), r.0, r.1)
unfolding decode_round
round-field_bytes before after f payload binary valid small =
    let (wire, number) =
      tag_parts (field_number f) (wire_type f) valid.number_lt (wire_type-lt f) in
    let start : length before + length (varint (field_tag f))
        ≡ length (before ++ varint (field_tag f)) =
      sym (length-append before (varint (field_tag f))) in
    let inside : IsSlice ((before ++ varint (field_tag f)) ++ (content_bytes f ++ after)) =
      rw (append_assoc before (varint (field_tag f)) (content_bytes f ++ after))
        (rw (append_assoc (varint (field_tag f)) (content_bytes f) after) at small) in
    let total : length (before ++ varint (field_tag f)) + length (content_bytes f)
        ≡ length (before ++ field_bytes f) =
      omega (
        arith,
        length-append before (varint (field_tag f)),
        length-append before (field_bytes f),
        length-append (varint (field_tag f)) (content_bytes f),
      ) in
    rw (
      append_assoc (varint (field_tag f)) (content_bytes f) after,
      read_varint-varint before (field_tag f) (content_bytes f ++ after)
          (omega (arith, wire_type-lt f, valid.number_lt)),
      wire,
      number,
      start,
      ← append_assoc before (varint (field_tag f)) (content_bytes f ++ after),
      arm-content (before ++ varint (field_tag f)) after f payload binary valid inside,
      total,
    )

decode_loop-done :
    (fuel : ℕ) (proto : Bytes) (i : ℕ) (payload : Bytes) (binary : Bool)
    → length proto ≤ i
    → decode_loop fuel proto i payload binary ≡ ok (payload, binary)
unfolding decode_loop
decode_loop-done zero proto i payload binary h = rw (le→not_ltb i (length proto) h)
decode_loop-done (suc fuel) proto i payload binary h = rw (le→not_ltb i (length proto) h)

pub decode_loop-suc :
    (fuel : ℕ) (proto : Bytes) (i : ℕ) (payload : Bytes) (binary : Bool)
    → i < length proto
    → decode_loop (suc fuel) proto i payload binary
      ≡ (decode_round proto i payload binary >>= λ r. decode_loop fuel proto r.0 r.1 r.2)
unfolding decode_loop
decode_loop-suc fuel proto i payload binary h = rw (lt→ltb i (length proto) h)

decode_loop-message_bytes :
    (fs : List Field) (fuel : ℕ) (before payload : Bytes) (binary : Bool)
    → All IsField fs
    → IsSlice (before ++ message_bytes fs)
    → length (message_bytes fs) ≤ fuel
    → decode_loop fuel (before ++ message_bytes fs) (length before) payload binary
      ≡ ok (apply_fields fs (payload, binary))
decode_loop-message_bytes [] fuel before payload binary valid small enough =
    decode_loop-done fuel _ (length before) payload binary
      (omega (arith, length-append before (message_bytes [])))
decode_loop-message_bytes (f ∷ fs) zero before payload binary valid small enough =
    absurd (omega (arith, length-append (field_bytes f) (message_bytes fs), length-field_bytes f))
decode_loop-message_bytes (f ∷ fs) (suc fuel) before payload binary valid small enough =
    let r = apply_field f (payload, binary) in
    let sum = length-append (field_bytes f) (message_bytes fs) in
    decode_loop-suc fuel _ (length before) payload binary (
      omega (
        arith,
        sum,
        length-append before (field_bytes f ++ message_bytes fs),
        length-field_bytes f,
      ))
    ∙ rw (round-field_bytes before (message_bytes fs) f payload binary valid.0 small) (
        rw (← append_assoc before (field_bytes f) (message_bytes fs)) (
          decode_loop-message_bytes fs fuel (before ++ field_bytes f) r.0 r.1 valid.1
            (rw append_assoc small) (omega (arith, sum, length-field_bytes f))))

-- Every well-formed message is decoded to what its fields say: the last payload field and the last
-- binary field count, and fields of other numbers or wire types change nothing.
pub decode_frame_proto-message_bytes :
    (fs : List Field)
    → All IsField fs
    → IsSlice (message_bytes fs)
    → decode_frame_proto (message_bytes fs) ≡ ok (apply_fields fs ([], false))
unfolding decode_frame_proto
decode_frame_proto-message_bytes fs valid small =
    decode_loop-message_bytes fs (length (message_bytes fs)) [] [] false valid small (omega arith)
