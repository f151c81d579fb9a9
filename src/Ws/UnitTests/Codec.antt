-- ===== src/Ws/UnitTests/Codec.antt =====
-- The unit tests of the varints, the `Frame` messages and the WebSocket frames in wasm/src/lib.rs.
use grpcgi.Base.{
  ℕ, zero, suc, ◌+◌, ◌-◌, ◌^◌, ◌%◌, bit_xor, true, false, not, [], ◌∷◌, ◌++◌, length, take, drop,
  ◌==◌, ◌>>=◌,
}
use grpcgi.Base.Machine.{Bytes, usize, index, from_be_bytes}
use grpcgi.Base.Text.{ascii, bytes_eq}
use grpcgi.Ws.Varint.{write_varint, read_varint}
use grpcgi.Ws.FrameProto.{encode_frame_proto, decode_frame_proto}
use grpcgi.Ws.FrameCodec.{MaskKey, key_at, encode_ws_frame, parse_ws_frame}
use grpcgi.Ws.UnitTests.{UnitTest, passed, asserting, unwrap, is_none}

unfoldable pub varint_roundtrip_small : UnitTest
varint_roundtrip_small = do
  let buf = write_varint [] 42
  asserting (bytes_eq buf (42 ∷ []))
      (do (v, n) ← unwrap (read_varint buf 0); asserting (v == 42) (asserting (n == 1) passed))

unfoldable pub varint_roundtrip_multibyte : UnitTest
varint_roundtrip_multibyte = do
  let buf = write_varint [] 300
  (v, _) ← unwrap (read_varint buf 0)
  asserting (v == 300) passed

unfoldable pub varint_roundtrip_large : UnitTest
varint_roundtrip_large = do
  let buf = write_varint [] (2 ^ 35)
  (v, _) ← unwrap (read_varint buf 0)
  asserting (v == 2 ^ 35) passed

unfoldable pub frame_proto_text_roundtrip : UnitTest
frame_proto_text_roundtrip = do
  let payload = ascii "hello world"
  let encoded = encode_frame_proto payload false
  (decoded_payload, decoded_binary) ← unwrap (decode_frame_proto encoded)
  asserting (bytes_eq decoded_payload payload) (asserting (not decoded_binary) passed)

unfoldable pub frame_proto_binary_roundtrip : UnitTest
frame_proto_binary_roundtrip = do
  let payload = 0x00 ∷ 0xff ∷ 0xab ∷ 0xcd ∷ []
  let encoded = encode_frame_proto payload true
  (decoded_payload, decoded_binary) ← unwrap (decode_frame_proto encoded)
  asserting (bytes_eq decoded_payload payload) (asserting decoded_binary passed)

unfoldable pub frame_proto_empty_payload : UnitTest
frame_proto_empty_payload = do
  let encoded = encode_frame_proto [] false
  (decoded_payload, decoded_binary) ← unwrap (decode_frame_proto encoded)
  asserting (length decoded_payload == 0) (asserting (not decoded_binary) passed)

unfoldable pub frame_proto_grpc_header : UnitTest
frame_proto_grpc_header = do
  let encoded = encode_frame_proto (ascii "x") false
  b0 ← index encoded 0
  asserting (b0 == 0x00) (do
    b1 ← index encoded 1
    b2 ← index encoded 2
    b3 ← index encoded 3
    b4 ← index encoded 4
    let proto_len = usize (from_be_bytes 0 (b1 ∷ b2 ∷ b3 ∷ b4 ∷ []))
    asserting (length encoded == usize (5 + proto_len)) passed)

unfoldable pub frame_proto_known_encoding : UnitTest
frame_proto_known_encoding =
    let encoded = encode_frame_proto (ascii "hi") false in
    asserting (bytes_eq encoded (0x00 ∷ 0x00 ∷ 0x00 ∷ 0x00 ∷ 0x04 ∷ 0x0a ∷ 0x02 ∷ b'h' ∷ b'i' ∷ []))
      passed

unfoldable pub frame_proto_known_encoding_binary : UnitTest
frame_proto_known_encoding_binary =
    let encoded = encode_frame_proto (ascii "hi") true in
    asserting
      (bytes_eq encoded
        (0x00 ∷ 0x00 ∷ 0x00 ∷ 0x00 ∷ 0x06 ∷ 0x0a ∷ 0x02 ∷ b'h' ∷ b'i' ∷ 0x10 ∷ 0x01 ∷ []))
      passed

unfoldable pub ws_frame_small_text_unmasked : UnitTest
ws_frame_small_text_unmasked = do
  let frame = encode_ws_frame 0x01 (ascii "Hi")
  b0 ← index frame 0
  asserting (b0 == 0x81) (do
    b1 ← index frame 1
    asserting (b1 == 0x02) (asserting (bytes_eq (drop 2 frame) (ascii "Hi")) passed))

-- `vec![byte; n]`
abbrev pub repeated : ℕ → ℕ → Bytes
repeated byte zero = []
repeated byte (suc n) = byte ∷ repeated byte n

unfoldable pub ws_frame_126_boundary : UnitTest
ws_frame_126_boundary = do
  let payload = repeated 0xaa 126
  let frame = encode_ws_frame 0x02 payload
  b0 ← index frame 0
  asserting (b0 == 0x82) (do
    b1 ← index frame 1
    asserting (b1 == 126) (do
      b2 ← index frame 2
      b3 ← index frame 3
      let ext_len = usize (from_be_bytes 0 (b2 ∷ b3 ∷ []))
      asserting (ext_len == 126) (asserting (length frame == 4 + 126) passed)))

abbrev pub mask : MaskKey
mask = record { k0 = 0x37; k1 = 0xfa; k2 = 0x21; k3 = 0x3d }

-- The loop that pushes the masked payload, from index `i` on.
abbrev pub push_masked : Bytes → ℕ → Bytes → Bytes
push_masked frame i [] = frame
push_masked frame i (b ∷ bs) =
    push_masked (frame ++ (bit_xor b (key_at mask (i % 4)) ∷ [])) (i + 1) bs

unfoldable pub ws_frame_roundtrip_masked : UnitTest
ws_frame_roundtrip_masked = do
  let payload = ascii "test"
  let header = 0x81 ∷ 0x84 ∷ mask.k0 ∷ mask.k1 ∷ mask.k2 ∷ mask.k3 ∷ []
  let frame = push_masked header 0 payload
  (opcode, decoded, consumed) ← unwrap (parse_ws_frame frame)
  asserting (opcode == 0x01)
      (asserting (bytes_eq decoded payload) (asserting (consumed == length frame) passed))

unfoldable pub ws_frame_parse_incomplete_returns_none : UnitTest
ws_frame_parse_incomplete_returns_none = do
  let frame = encode_ws_frame 0x01 (ascii "hello")
  missing ← is_none (parse_ws_frame (take (length frame - 1) frame))
  asserting missing passed

unfoldable pub ws_frame_parse_unmasked : UnitTest
ws_frame_parse_unmasked = do
  let frame = encode_ws_frame 0x02 (ascii "binary")
  (opcode, payload, consumed) ← unwrap (parse_ws_frame frame)
  asserting (opcode == 0x02)
      (asserting (bytes_eq payload (ascii "binary")) (asserting (consumed == length frame) passed))

unfoldable pub ws_close_frame : UnitTest
ws_close_frame = do
  let frame = encode_ws_frame 0x08 (0x03 ∷ 0xe8 ∷ [])
  b0 ← index frame 0
  asserting (b0 == 0x88) (asserting (bytes_eq (drop 2 frame) (0x03 ∷ 0xe8 ∷ [])) passed)

unfoldable pub ws_frame_empty_payload : UnitTest
ws_frame_empty_payload = do
  let frame = encode_ws_frame 0x09 []
  (opcode, payload, consumed) ← unwrap (parse_ws_frame frame)
  asserting (opcode == 0x09) (asserting (length payload == 0) (asserting (consumed == 2) passed))
