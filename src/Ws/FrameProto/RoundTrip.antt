-- ===== src/Ws/FrameProto/RoundTrip.antt =====
-- `encode_frame_proto` writes a well-formed message, which `decode_frame_proto` reads back.
use grpcgi.Base.{ℕ, arith, ◌≡◌, refl, sym, ap, ◌∙◌}
use grpcgi.Base.{Bool, true, false, List, [], ◌∷◌, ◌++◌, length, append-nil}
use grpcgi.Base.{◌==◌, All, ok}
use grpcgi.Base.Machine.{Bytes, IsSlice, u64}
use grpcgi.Wire.Varint.{varint_small}
use grpcgi.Wire.Fields.{Field, varint_field, len_field, IsField, message_bytes, field_bytes}
use grpcgi.Ws.Varint.{write_varint}
use grpcgi.Ws.Varint.Laws.{write_varint-varint}
use grpcgi.Ws.FrameProto.{encode_frame_proto, decode_frame_proto}
use grpcgi.Ws.FrameProto.Arm.{apply_fields}
use grpcgi.Ws.FrameProto.Decode.{decode_frame_proto-message_bytes}

-- The fields of a `Frame`; as in proto3, a default value is left out.
abbrev pub payload_fields : Bytes → List Field
payload_fields [] = []
payload_fields (b ∷ bs) = len_field 1 (b ∷ bs) ∷ []

abbrev pub binary_fields : Bool → List Field
binary_fields false = []
binary_fields true = varint_field 2 1 ∷ []

abbrev pub frame_fields : Bytes → Bool → List Field
frame_fields payload binary = payload_fields payload ++ binary_fields binary

binary_bytes : field_bytes (varint_field 2 1) ≡ 0x10 ∷ 0x01 ∷ []
binary_bytes = rw (varint_small 16 (omega arith), varint_small 1 (omega arith))

payload_bytes :
    (payload : Bytes)
    → IsSlice payload
    → write_varint (0x0a ∷ []) (u64 (length payload)) ++ payload ≡ field_bytes (len_field 1 payload)
payload_bytes payload small =
    let exact : u64 (length payload) ≡ length payload = omega arith in
    rw (
      exact,
      write_varint-varint (0x0a ∷ []) (length payload) (omega arith),
      varint_small 10 (omega arith),
    )

not_empty : (b : ℕ) (bs : Bytes) → (length (b ∷ bs) == 0) ≡ false
not_empty b bs = ground arith

-- The encoder writes the `Frame` in the wire format of protobuf.
pub encode_frame_proto-message_bytes :
    (payload : Bytes) (binary : Bool)
    → IsSlice payload
    → encode_frame_proto payload binary ≡ message_bytes (frame_fields payload binary)
unfolding encode_frame_proto
encode_frame_proto-message_bytes [] false small = refl
encode_frame_proto-message_bytes [] true small = sym (append-nil _ ∙ binary_bytes)
encode_frame_proto-message_bytes (b ∷ bs) false small =
    rw (not_empty b bs, payload_bytes (b ∷ bs) small) (sym (append-nil _))
encode_frame_proto-message_bytes (b ∷ bs) true small =
    rw (not_empty b bs, payload_bytes (b ∷ bs) small)
      (ap (λ (l : Bytes). field_bytes (len_field 1 (b ∷ bs)) ++ l)
        (sym (append-nil _ ∙ binary_bytes)))

frame_fields-IsField :
    (payload : Bytes) (binary : Bool) → IsSlice payload → All IsField (frame_fields payload binary)
frame_fields-IsField [] false small = tt
frame_fields-IsField [] true small = (omega arith, tt)
frame_fields-IsField (b ∷ bs) false small = (omega arith, tt)
frame_fields-IsField (b ∷ bs) true small = (omega arith, (omega arith, tt))

apply-frame_fields :
    (payload : Bytes) (binary : Bool)
    → apply_fields (frame_fields payload binary) ([], false) ≡ (payload, binary)
apply-frame_fields [] false = refl
apply-frame_fields [] true = refl
apply-frame_fields (b ∷ bs) false = refl
apply-frame_fields (b ∷ bs) true = refl

-- The decoder reads back every payload and flag that the encoder wrote.
pub decode-encode_frame_proto :
    (payload : Bytes) (binary : Bool)
    → IsSlice payload
    → IsSlice (encode_frame_proto payload binary)
    → decode_frame_proto (encode_frame_proto payload binary) ≡ ok (payload, binary)
decode-encode_frame_proto payload binary small fits =
    let written = encode_frame_proto-message_bytes payload binary small in
    rw written (
      decode_frame_proto-message_bytes (frame_fields payload binary)
        (frame_fields-IsField payload binary small) (rw written at fits)
      ∙ ap ok (apply-frame_fields payload binary))
