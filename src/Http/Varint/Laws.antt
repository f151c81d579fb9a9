-- ===== src/Http/Varint/Laws.antt =====
-- `write_varint` writes the varint of the wire format, and `read_varint` reads it back.
use grpcgi.Base.{ℕ, zero, suc, ◌+◌, ◌*◌, ◌/◌, ◌%◌, ◌^◌, ◌≤◌, ◌<◌, bit_and, arith}
use grpcgi.Base.{◌≡◌, refl, ap, [], ◌∷◌, ◌++◌, length, append_assoc, Acc}
use grpcgi.Base.{ok, nothing, ◌⊎◌, inr}
use grpcgi.Base.Bits.{bit_and-0x7f, bit_and-0x80, bit_or-0x80, bit_or_shifted, bit_or-lt}
use grpcgi.Base.Machine.{Bytes, IsU64, u8, u64}
use grpcgi.Wire.Varint.{groups, varint}
use grpcgi.Http.Varint.{write_varint_loop, write_varint, add_group, read_varint_loop, read_varint}
use native.Mathlib.Numerals.{towards_suc}

low_group : (v : ℕ) → u8 (bit_and v 0x7f) ≡ v % 128
low_group v = omega (arith, bit_and-0x7f v)

write_varint_loop-groups :
    (k v : ℕ) (w : Acc ◌<◌ v) (buf : Bytes)
    → v < 128 ^ suc k
    → write_varint_loop v w buf ≡ buf ++ groups k v
unfolding write_varint_loop groups
write_varint_loop-groups zero v (Acc.intro _ smaller) buf h = ground (arith, low_group v)
write_varint_loop-groups (suc k) v (Acc.intro _ smaller) buf h =
    let first : Bytes = (v % 128 + 128) ∷ [] in
    grind (
      arith,
      low_group v,
      bit_or-0x80 (v % 128),
      λ (w : Acc ◌<◌ (v / 128)).
          write_varint_loop-groups k (v / 128) w (buf ++ first) (omega arith),
      append_assoc buf first (groups k (v / 128)),
    )

-- On every 64-bit number `write_varint` keeps `buf` and appends the number's varint.
pub write_varint-varint : (v : ℕ) (buf : Bytes) → IsU64 v → write_varint v buf ≡ buf ++ varint v
unfolding write_varint
write_varint-varint v buf h = write_varint_loop-groups 9 v _ buf (omega arith)

seven_more : (shift : ℕ) → 128 * 2 ^ shift ≡ 2 ^ (shift + 7)
seven_more shift = simp towards_suc (omega arith)

-- A number is its lowest group and the others, at their places.
regrouped : (shift v : ℕ) → v % 128 * 2 ^ shift + v / 128 * 2 ^ (shift + 7) ≡ v * 2 ^ shift
regrouped shift v =
    let place : v / 128 * (128 * 2 ^ shift) ≡ v / 128 * 2 ^ (shift + 7) =
      ap (◌*◌ (v / 128)) (seven_more shift) in
    let parts : (128 * (v / 128) + v % 128) * 2 ^ shift ≡ v * 2 ^ shift =
      ap (λ (n : ℕ). n * 2 ^ shift) (omega arith) in
    omega (arith, place, parts)

add_group-eq-add :
    (val b shift : ℕ)
    → val < 2 ^ shift
    → b % 128 * 2 ^ shift < 2 ^ 64
    → add_group val b shift ≡ val + b % 128 * 2 ^ shift
add_group-eq-add val b shift low fits =
    rw (bit_and-0x7f b) (ground (arith, bit_or_shifted shift val (b % 128) low))

add_group-low : (val g shift : ℕ) → val < 2 ^ shift → val + g % 128 * 2 ^ shift < 2 ^ (shift + 7)
add_group-low val g shift low = grind (arith, seven_more shift)

-- One round of the loop on a last byte, and on a byte with the top bit set over the group `g`.
last_byte :
    (w i val shift : ℕ) (rest : Bytes)
    → w < 128
    → val < 2 ^ shift
    → val + w * 2 ^ shift < 2 ^ 64
    → read_varint_loop (w ∷ rest) i val shift ≡ ok (val + w * 2 ^ shift, i + 1)
unfolding read_varint_loop
last_byte w i val shift rest hw low fits =
    ground (arith, bit_and-0x80 w, add_group-eq-add val w shift low)

inner_byte :
    (g i val shift : ℕ) (rest : Bytes)
    → g < 128
    → shift < 57
    → val < 2 ^ shift
    → val + g * 2 ^ shift < 2 ^ 64
    → read_varint_loop ((g + 128) ∷ rest) i val shift
      ≡ read_varint_loop rest (i + 1) (val + g * 2 ^ shift) (shift + 7)
unfolding read_varint_loop
inner_byte g i val shift rest hg hs low fits =
    ground (arith, bit_and-0x80 (g + 128), add_group-eq-add val (g + 128) shift low)

read_varint_loop-groups :
    (k w i val shift : ℕ) (rest : Bytes)
    → w < 128 ^ suc k
    → shift + 7 * k ≤ 63
    → val < 2 ^ shift
    → val + w * 2 ^ shift < 2 ^ 64
    → read_varint_loop (groups k w ++ rest) i val shift
      ≡ ok (val + w * 2 ^ shift, i + length (groups k w))
unfolding groups
read_varint_loop-groups zero w i val shift rest hw hs low fits =
    last_byte w i val shift rest (omega arith) low fits
read_varint_loop-groups (suc k) w i val shift rest hw hs low fits = ground (
  arith,
  last_byte w i val shift rest,
  regrouped shift w,
  add_group-low val (w % 128) shift low,
  inner_byte (w % 128) i val shift (groups k (w / 128) ++ rest),
  read_varint_loop-groups k (w / 128) (i + 1) (val + w % 128 * 2 ^ shift) (shift + 7) rest,
)

-- `read_varint` reads back a 64-bit number from its varint, whatever follows, and counts its bytes.
pub read_varint-varint :
    (v : ℕ) (rest : Bytes) → IsU64 v → read_varint (varint v ++ rest) ≡ ok (v, length (varint v))
unfolding read_varint
read_varint-varint v rest h = ground (arith, read_varint_loop-groups 9 v 0 0 0 rest)

read_varint_loop_takes :
    (l : Bytes) (i val shift j v n : ℕ)
    → shift ≡ 7 * j
    → j ≤ 9
    → val < 2 ^ 64
    → read_varint_loop l i val shift ≡ ok (v, n)
    → IsU64 v × (i < n) × (n ≤ i + length l) × (n + j ≤ i + 10)
unfolding read_varint_loop
read_varint_loop_takes [] i val shift j v n hs hj hv e = cc
read_varint_loop_takes (b ∷ l) i val shift j v n hs hj hv e =
    let fits = bit_or-lt 64 val (u64 (bit_and b 0x7f * 2 ^ shift)) hv (omega arith) in
    ground (arith, read_varint_loop_takes l (i + 1) (add_group val b shift) (shift + 7) (j + 1) v n)

-- What `read_varint` returns is a 64-bit number and a count of 1 to 10 bytes, all in the buffer.
pub read_varint_takes :
    (l : Bytes) (v n : ℕ)
    → read_varint l ≡ ok (v, n)
    → IsU64 v × (0 < n) × (n ≤ length l) × (n ≤ 10)
unfolding read_varint
read_varint_takes l v n e = ground (arith, read_varint_loop_takes l 0 0 0 0 v n)

read_varint_loop-append :
    (l more : Bytes) (i val shift v n : ℕ)
    → read_varint_loop l i val shift ≡ ok (v, n)
    → read_varint_loop (l ++ more) i val shift ≡ ok (v, n)
unfolding read_varint_loop
read_varint_loop-append [] more i val shift v n e = cc
read_varint_loop-append (b ∷ l) more i val shift v n e =
    ground (arith, read_varint_loop-append l more (i + 1) (add_group val b shift) (shift + 7) v n)

-- Bytes behind the varint do not change what is read.
pub read_varint-append :
    (l more : Bytes) (v n : ℕ) → read_varint l ≡ ok (v, n) → read_varint (l ++ more) ≡ ok (v, n)
unfolding read_varint
read_varint-append l more v n e = read_varint_loop-append l more 0 0 0 v n e

read_varint_loop_total :
    (l : Bytes) (i val shift : ℕ)
    → ((r : ℕ × ℕ) × (read_varint_loop l i val shift ≡ ok r))
      ⊎ (read_varint_loop l i val shift ≡ nothing)
unfolding read_varint_loop
read_varint_loop_total [] i val shift = inr refl
read_varint_loop_total (b ∷ l) i val shift =
    ground (arith, read_varint_loop_total l (i + 1) (add_group val b shift) (shift + 7))

-- `read_varint` never panics.
pub read_varint_total :
    (l : Bytes) → ((r : ℕ × ℕ) × (read_varint l ≡ ok r)) ⊎ (read_varint l ≡ nothing)
unfolding read_varint
read_varint_total l = read_varint_loop_total l 0 0 0
