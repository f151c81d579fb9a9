-- ===== src/Ws/FrameCodec/Encode.antt =====
-- `encode_ws_frame` writes an unmasked frame of RFC 6455, which `parse_ws_frame` reads back.
use grpcgi.Base.{ℕ, ◌+◌, ◌%◌, ◌^◌, ◌≤◌, ◌<◌, arith, ◌≡◌, ◌≢◌, refl, sym, ap, ◌∙◌}
use grpcgi.Base.{
  [], ◌++◌, length, length-append, append-nil, none, ok, nothing, panic, stuck, Outcome,
}
use grpcgi.Base.Bits.{bit_and-0x0f, 0x80-bit_or}
use grpcgi.Base.Machine.{Bytes, IsSlice}
use grpcgi.Ws.FrameCodec.{length_field, encode_ws_frame, parse_ws_frame}
use grpcgi.Ws.FrameCodec.Rfc6455.{Frame, frame_bytes, length_bytes}
use grpcgi.Ws.FrameCodec.RoundTrip.{parse_ws_frame-frame_bytes}
use grpcgi.Ws.FrameCodec.Bounds.{parse_ws_frame_takes}
use grpcgi.Ws.FrameCodec.Parse.{parse_ws_frame-append}

-- A final, unmasked frame with this opcode.
abbrev pub server_frame : ℕ → Bytes → Frame
server_frame opcode payload = record { first = 128 + opcode % 16; mask = none; payload = payload }

length_field-length_bytes : (len : ℕ) → len < 2 ^ 31 → length_field len ≡ length_bytes 0 len
unfolding length_field length_bytes
length_field-length_bytes len h = ground arith

-- The encoder writes the frame of RFC 6455 with FIN set, no mask and the shortest length form.
pub encode_ws_frame-frame_bytes :
    (opcode : ℕ) (payload : Bytes)
    → IsSlice payload
    → encode_ws_frame opcode payload ≡ frame_bytes (server_frame opcode payload)
unfolding encode_ws_frame
encode_ws_frame-frame_bytes opcode payload small = rw (
  bit_and-0x0f opcode,
  0x80-bit_or (opcode % 16) (omega arith),
  length_field-length_bytes (length payload) small,
)

-- What the encoder writes is parsed to the same opcode and payload, whatever follows.
pub parse-encode_ws_frame :
    (opcode : ℕ) (payload rest : Bytes)
    → opcode < 16
    → IsSlice payload
    → parse_ws_frame (encode_ws_frame opcode payload ++ rest)
      ≡ ok (opcode, payload, length (encode_ws_frame opcode payload))
parse-encode_ws_frame opcode payload rest op small =
    let same : (128 + opcode % 16) % 16 ≡ opcode = omega arith in
    rw (encode_ws_frame-frame_bytes opcode payload small)
      (rw same at (parse_ws_frame-frame_bytes (server_frame opcode payload) rest small))

-- The encoder's header has 2, 4 or 10 bytes, by the payload's length.
pub length-encode_ws_frame :
    (opcode : ℕ) (payload : Bytes)
    → (length payload < 126 → length (encode_ws_frame opcode payload) ≡ length payload + 2)
      × (126 ≤ length payload
          → length payload < 65536
          → length (encode_ws_frame opcode payload) ≡ length payload + 4)
      × (65536 ≤ length payload → length (encode_ws_frame opcode payload) ≡ length payload + 10)
unfolding encode_ws_frame length_field
length-encode_ws_frame opcode payload =
    ground (arith, length-append (length_field (length payload)) payload)

-- On every proper prefix of a frame, masked or not, the parser asks for more bytes: any other
-- answer would carry over to the whole frame, which is longer than the prefix.
pub parse_ws_frame_incomplete :
    (f : Frame) (front back : Bytes)
    → IsSlice f.payload
    → frame_bytes f ≡ front ++ back
    → back ≢ []
    → parse_ws_frame front ≡ nothing
parse_ws_frame_incomplete f front back small e ne = nothing_or (parse_ws_frame front) refl
  where
    whole : parse_ws_frame (front ++ back) ≡ ok (f.first % 16, f.payload, length (frame_bytes f))
    whole = rw (append-nil (frame_bytes f), e) at (parse_ws_frame-frame_bytes f [] small)

    too_long : parse_ws_frame front ≢ nothing → ⊥
    too_long answer =
        let early = sym (parse_ws_frame-append front back answer) ∙ whole in
        ground (
          arith,
          ne,
          parse_ws_frame_takes front (f.first % 16) f.payload (length (frame_bytes f)) early,
          ap length e,
          length-append front back,
        )

    nothing_or :
        (r : Outcome (ℕ × Bytes × ℕ)) → parse_ws_frame front ≡ r → parse_ws_frame front ≡ nothing
    nothing_or nothing h = h
    nothing_or (ok a) h = absurd (too_long (λ k. cc))
    nothing_or panic h = absurd (too_long (λ k. cc))
    nothing_or stuck h = absurd (too_long (λ k. cc))
