-- ===== src/Ws/FrameCodec/RoundTrip.antt =====
-- `parse_ws_frame` on well-formed frames, masked or not.
use grpcgi.Base.{ℕ, suc, ◌+◌, ◌%◌, ◌^◌, ◌≤◌, ◌<◌, arith, ◌≡◌, ap, ◌∙◌}
use grpcgi.Base.{false, [], ◌∷◌, ◌++◌, length, none, some, Option, ok, bit_and}
use grpcgi.Base.{length-append, append_assoc, Bool-cases, inl, inr, ltb→lt, not, ◌==◌, ltb}
use grpcgi.Base.Bits.{bit_and-0x0f, bit_and-0x7f, bit_and-0x80}
use grpcgi.Base.Machine.{Bytes, IsSlice, to_be_bytes, from_be_bytes, usize}
use grpcgi.Base.Machine.{from_be_bytes_16, from_be_bytes_64}
use grpcgi.Ws.FrameCodec.{MaskKey, take_payload, payload_length, parse_ws_frame}
use grpcgi.Ws.FrameCodec.Rfc6455.{Frame, frame_bytes, length_bytes, mask_mark, key_bytes, masked}
use grpcgi.Ws.FrameCodec.Unmask.{is_masked, take_payload-masked, length-masked}

-- The second byte: the mask bit over a length or a length indicator.
mask_bit :
    (m : Option MaskKey) (n : ℕ)
    → n < 128
    → (not (bit_and (mask_mark m + n) 0x80 == 0) ≡ is_masked m)
      × (bit_and (mask_mark m + n) 0x7f ≡ n)
mask_bit none n h = ground (arith, bit_and-0x80 (0 + n), bit_and-0x7f (0 + n))
mask_bit (some key) n h = ground (arith, bit_and-0x80 (128 + n), bit_and-0x7f (128 + n))

-- The parser on a second byte that holds `n`, with the length fields still to be read.
pub parse_second :
    (first : ℕ) (m : Option MaskKey) (n : ℕ) (l : Bytes) {len offset : ℕ}
    → n < 128
    → payload_length (first ∷ (mask_mark m + n) ∷ l) n ≡ ok (len, offset)
    → parse_ws_frame (first ∷ (mask_mark m + n) ∷ l)
      ≡ take_payload (first ∷ (mask_mark m + n) ∷ l) (first % 16) (is_masked m) len offset
unfolding parse_ws_frame
parse_second first m n l h e =
    let (mark, low) = mask_bit m n h in
    let long : ltb (suc (suc (length l))) 2 ≡ false = ground arith in
    rw (long, low, e, mark, bit_and-0x0f first)

payload_length_small : (buf : Bytes) (n : ℕ) → n < 126 → payload_length buf n ≡ ok (n, 2)
unfolding payload_length
payload_length_small buf n h = ground arith

payload_length_16 :
    (a b c d : ℕ) (l : Bytes)
    → payload_length (a ∷ b ∷ c ∷ d ∷ l) 126 ≡ ok (usize (from_be_bytes 0 (c ∷ d ∷ [])), 4)
unfolding payload_length
payload_length_16 a b c d l = ground arith

pub payload_length_64 :
    (a b c0 c1 c2 c3 c4 c5 c6 c7 : ℕ) (l : Bytes)
    → payload_length (a ∷ b ∷ c0 ∷ c1 ∷ c2 ∷ c3 ∷ c4 ∷ c5 ∷ c6 ∷ c7 ∷ l) 127
      ≡ ok (usize (from_be_bytes 0 (c0 ∷ c1 ∷ c2 ∷ c3 ∷ c4 ∷ c5 ∷ c6 ∷ c7 ∷ [])), 10)
unfolding payload_length
payload_length_64 a b c0 c1 c2 c3 c4 c5 c6 c7 l = ground arith

-- What the parser has decided behind the length fields `front` of a frame.
abbrev Reads : ℕ → Option MaskKey → ℕ → Bytes → Bytes → Type 0
Reads first m len front tail =
    parse_ws_frame (first ∷ (front ++ tail))
    ≡ take_payload (first ∷ (front ++ tail)) (first % 16) (is_masked m) len (length (first ∷ front))

parse_header :
    (first : ℕ) (m : Option MaskKey) (len : ℕ) (tail : Bytes)
    → len < 2 ^ 31
    → Reads first m len (length_bytes (mask_mark m) len) tail
unfolding length_bytes
parse_header first m len tail h = elim (Bool-cases (ltb len 126)) [
  | inl small ↦
      rw small
        (parse_second first m len tail (ground arith) (payload_length_small _ len (ground arith)))
  | inr large ↦ rw large (elim (Bool-cases (ltb len 65536)) [
    | inl medium ↦
        let value : usize (from_be_bytes 0 (to_be_bytes 2 len)) ≡ len =
          omega (arith, from_be_bytes_16 len (ltb→lt _ _ medium)) in
        rw medium (
          parse_second first m 126 _ (omega arith)
            (payload_length_16 _ _ _ _ tail ∙ ap (λ (n : ℕ). ok (n, 4)) value))
    | inr huge ↦
        let value : usize (from_be_bytes 0 (to_be_bytes 8 len)) ≡ len =
          omega (arith, from_be_bytes_64 len (omega arith)) in
        rw huge (
          parse_second first m 127 _ (omega arith)
            (payload_length_64 _ _ _ _ _ _ _ _ _ _ tail ∙ ap (λ (n : ℕ). ok (n, 10)) value))
  ])
]

length-length_bytes : (mark len : ℕ) → length (length_bytes mark len) ≤ 9
unfolding length_bytes
length-length_bytes mark len = ground arith

-- A frame of RFC 6455, masked or not, is parsed whatever follows it: the opcode is the low half of
-- its first byte, the payload is unmasked, and the frame's own bytes are consumed.
pub parse_ws_frame-frame_bytes :
    (f : Frame) (rest : Bytes)
    → IsSlice f.payload
    → parse_ws_frame (frame_bytes f ++ rest) ≡ ok (f.first % 16, f.payload, length (frame_bytes f))
parse_ws_frame-frame_bytes f rest small =
    rw (append_assoc fields (key ++ body) rest, append_assoc key body rest)
      (parse_header f.first f.mask (length f.payload) (key ++ (body ++ rest)) small
        ∙ take_payload-masked f.mask (f.first ∷ fields) f.payload rest (f.first % 16)
            (omega (arith, length-length_bytes (mask_mark f.mask) (length f.payload)))
        ∙ ap (λ (n : ℕ). ok (f.first % 16, f.payload, n)) total)
  where
    fields : Bytes
    fields = length_bytes (mask_mark f.mask) (length f.payload)

    key : Bytes
    key = key_bytes f.mask

    body : Bytes
    body = masked f.mask f.payload

    total : length (f.first ∷ fields) + length key + length f.payload ≡ length (frame_bytes f)
    total = omega (
      arith,
      length-append fields (key ++ body),
      length-append key body,
      length-masked f.mask f.payload,
    )
