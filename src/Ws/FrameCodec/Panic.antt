-- ===== src/Ws/FrameCodec/Panic.antt =====
-- When `parse_ws_frame` of wasm/src/lib.rs panics, and that it always ends.
use grpcgi.Base.{ℕ, ◌+◌, ◌%◌, ◌^◌, ◌≤◌, ◌<◌, arith, ◌≡◌, refl, sym, ap, ◌∙◌, bit_and, not, false}
use grpcgi.Base.{
  [], ◌∷◌, length, take, All, ok, nothing, panic, stuck, Outcome, ltb, ◌==◌, ◌⊎◌, inl, inr,
  Bool-cases, not_ltb→le,
}
use grpcgi.Base.Machine.{Bytes, IsByte, usize, from_be_bytes, get_elem?-lt}
use grpcgi.Ws.FrameCodec.{payload_length, parse_ws_frame}
use grpcgi.Ws.FrameCodec.Parse.{parse_ws_frame-cons_cons}
use grpcgi.Ws.FrameCodec.RoundTrip.{payload_length_64}
use grpcgi.Ws.FrameCodec.Bounds.{
  payload_length-Declares, start_small, Taken, incomplete, frame, overflows, take_payload-Taken,
}

-- A header with a 64-bit length whose low 32 bits are within 14 of 2^32.
abbrev pub WrapsLength : Bytes → Type 0
WrapsLength [] = 1 ≤ 0
WrapsLength (b0 ∷ []) = 1 ≤ 0
WrapsLength (b0 ∷ b1 ∷ l) = (b1 % 128 ≡ 127) × (2 ^ 32 ≤ usize (from_be_bytes 0 (take 8 l)) + 14)

-- Every answer but the ones that `parse_ws_frame` cannot give.
pub data Parsed (buf : Bytes) (r : Outcome (ℕ × Bytes × ℕ)) : Type 0 where
  asks_more : r ≡ nothing → Parsed buf r
  answers : (q : ℕ × Bytes × ℕ) → r ≡ ok q → Parsed buf r
  wraps_around : r ≡ panic → WrapsLength buf → Parsed buf r

-- `Some` or `None`.
abbrev IsAnswer : Outcome (ℕ × ℕ) → Type 0
IsAnswer (ok q) = 0 ≤ 0
IsAnswer nothing = 0 ≤ 0
IsAnswer panic = 1 ≤ 0
IsAnswer stuck = 1 ≤ 0

IsAnswer-cases : (r : Outcome (ℕ × ℕ)) → IsAnswer r → (r ≡ nothing) ⊎ ((q : ℕ × ℕ) × (r ≡ ok q))
IsAnswer-cases (ok q) a = inr (q, refl)
IsAnswer-cases nothing a = inl refl
IsAnswer-cases panic a = absurd (omega (arith, a))
IsAnswer-cases stuck a = absurd (omega (arith, a))

payload_length-IsAnswer :
    (buf : Bytes) (n : ℕ) → 2 ≤ length buf → n < 128 → IsAnswer (payload_length buf n)
unfolding payload_length
payload_length-IsAnswer buf n two small = elim (Bool-cases (n == 126)) [
  | inl medium ↦ elim (Bool-cases (ltb (length buf) 4)) [
    | inl short ↦ rw (medium, short) (omega arith)
    | inr long ↦
        let (b2, e2) = get_elem?-lt buf 2 (within 4 long 2 (omega arith)) in
        let (b3, e3) = get_elem?-lt buf 3 (within 4 long 3 (omega arith)) in
        (rw (medium, long, e2, e3) (omega arith))
  ]
  | inr other ↦ elim (Bool-cases (n == 127)) [
    | inl large ↦ elim (Bool-cases (ltb (length buf) 10)) [
      | inl short ↦ rw (other, large, short) (omega arith)
      | inr long ↦
          let (b2, e2) = get_elem?-lt buf 2 (within 10 long 2 (omega arith)) in
          let (b3, e3) = get_elem?-lt buf 3 (within 10 long 3 (omega arith)) in
          let (b4, e4) = get_elem?-lt buf 4 (within 10 long 4 (omega arith)) in
          let (b5, e5) = get_elem?-lt buf 5 (within 10 long 5 (omega arith)) in
          let (b6, e6) = get_elem?-lt buf 6 (within 10 long 6 (omega arith)) in
          let (b7, e7) = get_elem?-lt buf 7 (within 10 long 7 (omega arith)) in
          let (b8, e8) = get_elem?-lt buf 8 (within 10 long 8 (omega arith)) in
          let (b9, e9) = get_elem?-lt buf 9 (within 10 long 9 (omega arith)) in
          (rw (other, large, long, e2, e3, e4, e5, e6, e7, e8, e9) (omega arith))
    ]
    | inr plain ↦ (rw (other, plain) (omega arith))
  ]
]
  where
    within : (k : ℕ) → ltb (length buf) k ≡ false → (i : ℕ) → i < k → i < length buf
    within k long i h = omega (arith, not_ltb→le (length buf) k long)

medium_length :
    (b0 b1 : ℕ) (l : Bytes) (len offset : ℕ)
    → All IsByte l
    → payload_length (b0 ∷ b1 ∷ l) 126 ≡ ok (len, offset)
    → len < 2 ^ 16
unfolding payload_length
medium_length b0 b1 [] len offset bytes e = cc
medium_length b0 b1 (b2 ∷ []) len offset bytes e = cc
medium_length b0 b1 (b2 ∷ b3 ∷ l) len offset bytes e = ground arith

abbrev length_of : Outcome (ℕ × ℕ) → ℕ
length_of (ok q) = q.0
length_of nothing = 0
length_of panic = 0
length_of stuck = 0

large_length :
    (b0 b1 : ℕ) (l : Bytes) (len offset : ℕ)
    → payload_length (b0 ∷ b1 ∷ l) 127 ≡ ok (len, offset)
    → len ≡ usize (from_be_bytes 0 (take 8 l))
unfolding payload_length
large_length b0 b1 [] len offset e = cc
large_length b0 b1 (b2 ∷ []) len offset e = cc
large_length b0 b1 (b2 ∷ b3 ∷ []) len offset e = cc
large_length b0 b1 (b2 ∷ b3 ∷ b4 ∷ []) len offset e = cc
large_length b0 b1 (b2 ∷ b3 ∷ b4 ∷ b5 ∷ []) len offset e = cc
large_length b0 b1 (b2 ∷ b3 ∷ b4 ∷ b5 ∷ b6 ∷ []) len offset e = cc
large_length b0 b1 (b2 ∷ b3 ∷ b4 ∷ b5 ∷ b6 ∷ b7 ∷ []) len offset e = cc
large_length b0 b1 (b2 ∷ b3 ∷ b4 ∷ b5 ∷ b6 ∷ b7 ∷ b8 ∷ []) len offset e = cc
large_length b0 b1 (b2 ∷ b3 ∷ b4 ∷ b5 ∷ b6 ∷ b7 ∷ b8 ∷ b9 ∷ l) len offset e =
    ap length_of (sym e ∙ payload_length_64 b0 b1 b2 b3 b4 b5 b6 b7 b8 b9 l)

small_length :
    (buf : Bytes) (n len offset : ℕ) → n < 126 → payload_length buf n ≡ ok (len, offset) → len ≡ n
unfolding payload_length
small_length buf n len offset h e = ground arith

long_length :
    (b0 b1 : ℕ) (l : Bytes) (len offset : ℕ)
    → All IsByte l
    → payload_length (b0 ∷ b1 ∷ l) (b1 % 128) ≡ ok (len, offset)
    → 2 ^ 32 ≤ len + 14
    → WrapsLength (b0 ∷ b1 ∷ l)
long_length b0 b1 l len offset bytes e h = elim (Bool-cases (b1 % 128 == 127)) [
  | inl large ↦
      let is_127 : b1 % 128 ≡ 127 = ground arith in
      (
        is_127,
        ground (
          arith,
          large_length b0 b1 l len offset (ap (payload_length (b0 ∷ b1 ∷ l)) (sym is_127) ∙ e),
        ),
      )
  | inr other ↦ elim (Bool-cases (b1 % 128 == 126)) [
    | inl medium ↦
        let is_126 : b1 % 128 ≡ 126 = ground arith in
        absurd (
          omega (
            arith,
            medium_length b0 b1 l len offset bytes
                (ap (payload_length (b0 ∷ b1 ∷ l)) (sym is_126) ∙ e),
          ))
    | inr plain ↦
        let is_small : b1 % 128 < 126 = ground arith in
        absurd (omega (arith, small_length (b0 ∷ b1 ∷ l) (b1 % 128) len offset is_small e))
  ]
]

Taken-Parsed :
    (b0 b1 : ℕ) (l : Bytes) (op start len : ℕ) (r : Outcome (ℕ × Bytes × ℕ))
    → start ≤ 14
    → (2 ^ 32 ≤ len + 14 → WrapsLength (b0 ∷ b1 ∷ l))
    → Taken (b0 ∷ b1 ∷ l) op start len r
    → Parsed (b0 ∷ b1 ∷ l) r
Taken-Parsed b0 b1 l op start len r s w (incomplete e h) = asks_more e
Taken-Parsed b0 b1 l op start len r s w (frame payload e same fits) = answers _ e
Taken-Parsed b0 b1 l op start len r s w (overflows e h) = wraps_around e (w (omega arith))

pub parse_ws_frame-Parsed : (buf : Bytes) → All IsByte buf → Parsed buf (parse_ws_frame buf)
parse_ws_frame-Parsed [] bytes = asks_more (unfold parse_ws_frame in refl)
parse_ws_frame-Parsed (b0 ∷ []) bytes = asks_more (unfold parse_ws_frame in refl)
parse_ws_frame-Parsed (b0 ∷ b1 ∷ l) bytes =
    let buf : Bytes = b0 ∷ b1 ∷ l in
    let masked = not (bit_and b1 0x80 == 0) in
    rw (parse_ws_frame-cons_cons b0 b1 l)
      (elim (IsAnswer-cases _
        (payload_length-IsAnswer buf (b1 % 128) (omega arith) (omega arith))) [
          | inl none_yet ↦ asks_more (rw none_yet refl)
          | inr ((len, offset), header) ↦
              let d =
                payload_length-Declares buf (b1 % 128) len offset (omega arith) (omega arith)
                  header in
              rw header (
                Taken-Parsed b0 b1 l (b0 % 16) _ len _ (start_small masked offset d.offset_le)
                  (long_length b0 b1 l len offset bytes.1.1 header)
                  (take_payload-Taken buf (b0 % 16) masked len offset d))
        ])
