-- ===== src/Tests/FrameCodec.antt =====
-- The WebSocket frame codec on the frames of the source's own tests.
use grpcgi.Base.{◌+◌, ◌≤◌, ◌<◌, ◌≡◌, refl, arith, [], ◌∷◌, ◌++◌, length, some, ok}
use grpcgi.Base.{nothing, panic}
use grpcgi.Base.Machine.{Bytes, to_be_bytes}
use grpcgi.Base.Text.{ascii}
use grpcgi.Ws.FrameCodec.{MaskKey, xor_key, payload_length, unmask_payload, take_payload}
use grpcgi.Ws.FrameCodec.{parse_ws_frame, length_field, encode_ws_frame}
use grpcgi.Ws.FrameCodec.Rfc6455.{Frame, length_bytes, mask_with, frame_bytes, key_bytes}
use grpcgi.Ws.FrameCodec.RoundTrip.{parse_ws_frame-frame_bytes}
use grpcgi.Ws.FrameCodec.Parse.{parse_ws_frame-append}
use grpcgi.Ws.FrameCodec.Bounds.{parse_ws_frame_takes}
use grpcgi.Ws.FrameCodec.Encode.{
  server_frame, encode_ws_frame-frame_bytes, parse-encode_ws_frame, parse_ws_frame_incomplete,
}
use grpcgi.Ws.FrameCodec.Overflow.{parse_ws_frame_panics}

abbrev test_key : MaskKey
test_key = record { k0 = 0x37; k1 = 0xfa; k2 = 0x21; k3 = 0x3d }

-- The text frame "test" with a mask.
abbrev masked_frame : Frame
masked_frame = record { first = 0x81; mask = some test_key; payload = ascii "test" }

abbrev masked_bytes : Bytes
masked_bytes = 0x81 ∷ 0x84 ∷ 0x37 ∷ 0xfa ∷ 0x21 ∷ 0x3d ∷ 0x43 ∷ 0x9f ∷ 0x52 ∷ 0x49 ∷ []

masked_run : parse_ws_frame masked_bytes ≡ ok (1, ascii "test", 10)
unfolding parse_ws_frame payload_length take_payload unmask_payload xor_key
masked_run = refl

masked_frame_bytes : frame_bytes masked_frame ≡ masked_bytes
unfolding length_bytes mask_with
masked_frame_bytes = refl

small_text : encode_ws_frame 1 (ascii "Hi") ≡ 0x81 ∷ 0x02 ∷ ascii "Hi"
unfolding encode_ws_frame length_field
small_text = refl

close_bytes : encode_ws_frame 8 (0x03 ∷ 0xe8 ∷ []) ≡ 0x88 ∷ 0x02 ∷ 0x03 ∷ 0xe8 ∷ []
unfolding encode_ws_frame length_field
close_bytes = refl

parse_ws_frame-frame_bytes_example :
    parse_ws_frame (frame_bytes masked_frame ++ 7 ∷ []) ≡ ok (1, ascii "test", 10)
unfolding length_bytes mask_with
parse_ws_frame-frame_bytes_example = parse_ws_frame-frame_bytes masked_frame (7 ∷ []) (omega arith)

parse-encode_ws_frame_example :
    parse_ws_frame (encode_ws_frame 2 (ascii "hi") ++ 9 ∷ [])
    ≡ ok (2, ascii "hi", length (encode_ws_frame 2 (ascii "hi")))
parse-encode_ws_frame_example =
    parse-encode_ws_frame 2 (ascii "hi") (9 ∷ []) (omega arith) (omega arith)

encode_ws_frame-frame_bytes_example :
    encode_ws_frame 1 (ascii "hello") ≡ frame_bytes (server_frame 1 (ascii "hello"))
encode_ws_frame-frame_bytes_example = encode_ws_frame-frame_bytes 1 (ascii "hello") (omega arith)

parse_ws_frame_incomplete_example : parse_ws_frame (0x81 ∷ 0x84 ∷ 0x37 ∷ []) ≡ nothing
parse_ws_frame_incomplete_example =
    parse_ws_frame_incomplete masked_frame (0x81 ∷ 0x84 ∷ 0x37 ∷ [])
      (0xfa ∷ 0x21 ∷ 0x3d ∷ 0x43 ∷ 0x9f ∷ 0x52 ∷ 0x49 ∷ []) (omega arith) masked_frame_bytes
      (λ e. cc)

parse_ws_frame-append_example :
    parse_ws_frame (masked_bytes ++ 5 ∷ 6 ∷ []) ≡ parse_ws_frame masked_bytes
parse_ws_frame-append_example =
    parse_ws_frame-append masked_bytes (5 ∷ 6 ∷ []) (λ e. cc (masked_run, e))

parse_ws_frame_takes_example :
    (1 < 16)
    × (length (ascii "test") + 2 ≤ 10)
    × (10 ≤ length (ascii "test") + 14)
    × (10 ≤ length masked_bytes)
parse_ws_frame_takes_example = parse_ws_frame_takes masked_bytes 1 (ascii "test") 10 masked_run

parse_ws_frame_panics_example :
    parse_ws_frame
      (0x82 ∷ 255 ∷ (to_be_bytes 8 0xffff_ffff ++ (key_bytes (some test_key) ++ 1 ∷ [])))
    ≡ panic
parse_ws_frame_panics_example =
    parse_ws_frame_panics 0x82 0xffff_ffff test_key (1 ∷ []) (omega arith) (omega arith)
