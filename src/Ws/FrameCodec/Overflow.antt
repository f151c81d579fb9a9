-- ===== src/Ws/FrameCodec/Overflow.antt =====
-- Payload lengths that do not fit the 32 bits of `usize`.
use grpcgi.Base.{ℕ, ◌+◌, ◌%◌, ◌^◌, ◌≤◌, ◌<◌, arith, ◌≡◌, ap, ◌∙◌}
use grpcgi.Base.{◌∷◌, ◌++◌, length, some, ok, true, le→not_ltb, panic}
use grpcgi.Base.Machine.{Bytes, to_be_bytes, from_be_bytes, usize, slice-eq-panic, from_be_bytes_64}
use grpcgi.Ws.FrameCodec.{MaskKey, take_payload, parse_ws_frame}
use grpcgi.Ws.FrameCodec.Rfc6455.{key_bytes}
use grpcgi.Ws.FrameCodec.RoundTrip.{parse_second, payload_length_64}

take_payload_wraps :
    (buf : Bytes) (opcode len : ℕ)
    → 2 ^ 32 ≤ len + 14
    → len < 2 ^ 32
    → 14 ≤ length buf
    → take_payload buf opcode true len 10 ≡ panic
unfolding take_payload
take_payload_wraps buf opcode len h k long = rw (
  le→not_ltb (length buf) (usize (14 + len)) (omega arith),
  slice-eq-panic buf 14 (usize (14 + len)) (omega arith),
)

-- A masked frame whose 64-bit length field holds a number from 2^32 - 14 to 2^32 - 1 makes the
-- parser panic as soon as its header has arrived: the end of the payload wraps around to a place
-- before its start.
pub parse_ws_frame_panics :
    (first len : ℕ) (key : MaskKey) (rest : Bytes)
    → 2 ^ 32 ≤ len + 14
    → len < 2 ^ 32
    → parse_ws_frame (first ∷ 255 ∷ (to_be_bytes 8 len ++ (key_bytes (some key) ++ rest))) ≡ panic
parse_ws_frame_panics first len key rest h k =
    let value : usize (from_be_bytes 0 (to_be_bytes 8 len)) ≡ len =
      omega (arith, from_be_bytes_64 len (omega arith)) in
    parse_second first (some key) 127 _ (omega arith)
      (payload_length_64 _ _ _ _ _ _ _ _ _ _ _ ∙ ap (λ (n : ℕ). ok (n, 10)) value)
    ∙ take_payload_wraps _ (first % 16) len h k (omega arith)
