-- ===== src/Ws/Varint/Laws.antt =====
-- The two filters' varint routines agree, so that the laws of the one are laws of the other.
use grpcgi.Base.{ℕ, ◌+◌, ◌/◌, ◌≤◌, ◌<◌, bit_and, bit_or, arith, ◌≡◌, refl, ◌∙◌, sym}
use grpcgi.Base.{[], ◌∷◌, ◌++◌, length, length-drop, drop, drop-append_self}
use grpcgi.Base.{drop-append_le, Acc, ok, nothing, ◌⊎◌}
use grpcgi.Base.Machine.{Bytes, IsU64, u8}
use grpcgi.Wire.Varint.{varint}
use grpcgi.Http
use grpcgi.Http.Varint.{add_group}
use grpcgi.Http.Varint.Laws
use grpcgi.Ws.Varint.{write_varint_loop, write_varint, read_varint_loop, read_varint}

same_write_loop :
    (buf : Bytes) (v : ℕ) (w w' : Acc ◌<◌ v)
    → write_varint_loop buf v w ≡ Http.Varint.write_varint_loop v w' buf
unfolding write_varint_loop Http.Varint.write_varint_loop
same_write_loop buf v (Acc.intro _ smaller) (Acc.intro _ smaller') =
    let first : Bytes = bit_or (u8 (bit_and v 0x7f)) 0x80 ∷ [] in
    grind (
      arith,
      λ (p q : v / 128 < v).
          same_write_loop (buf ++ first) (v / 128) (smaller (v / 128) p) (smaller' (v / 128) q),
    )

-- `write_varint` of the two filters append the same bytes, whatever the number.
pub write_varint_same : (buf : Bytes) (v : ℕ) → write_varint buf v ≡ Http.Varint.write_varint v buf
unfolding write_varint Http.Varint.write_varint
write_varint_same buf v = same_write_loop buf v _ _

same_loop :
    (l : Bytes) (offset i k result shift : ℕ)
    → i ≡ offset + k
    → read_varint_loop l offset i result shift ≡ Http.Varint.read_varint_loop l k result shift
unfolding read_varint_loop Http.Varint.read_varint_loop
same_loop [] offset i k result shift e = refl
same_loop (b ∷ l) offset i k result shift e =
    ground (arith, same_loop l offset (i + 1) (k + 1) (add_group result b shift) (shift + 7))

-- `read_varint(buf, offset)` of the one filter is `read_varint(&buf[offset..])` of the other.
pub read_varint_same :
    (buf : Bytes) (offset : ℕ) → read_varint buf offset ≡ Http.Varint.read_varint (drop offset buf)
unfolding read_varint Http.Varint.read_varint
read_varint_same buf offset = same_loop (drop offset buf) offset offset 0 0 0 (omega arith)

-- On every 64-bit number `write_varint` keeps `buf` and appends the number's varint.
pub write_varint-varint : (buf : Bytes) (v : ℕ) → IsU64 v → write_varint buf v ≡ buf ++ varint v
write_varint-varint buf v h = write_varint_same buf v ∙ Laws.write_varint-varint v buf h

-- `read_varint` at the end of `before` reads the varint that stands there.
pub read_varint-varint :
    (before : Bytes) (v : ℕ) (rest : Bytes)
    → IsU64 v
    → read_varint (before ++ (varint v ++ rest)) (length before) ≡ ok (v, length (varint v))
read_varint-varint before v rest h =
    read_varint_same _ (length before) ∙ rw drop-append_self (Laws.read_varint-varint v rest h)

-- A number that is read is a 64-bit number, and takes 1 to 10 bytes that lie in the buffer.
pub read_varint_takes :
    (buf : Bytes) (offset v n : ℕ)
    → read_varint buf offset ≡ ok (v, n)
    → IsU64 v × (0 < n) × (offset + n ≤ length buf) × (n ≤ 10)
read_varint_takes buf offset v n e = omega (
  arith,
  Laws.read_varint_takes (drop offset buf) v n (sym (read_varint_same buf offset) ∙ e),
  length-drop offset buf,
)

-- Bytes behind the varint do not change what is read.
pub read_varint-append :
    (buf more : Bytes) (offset v n : ℕ)
    → read_varint buf offset ≡ ok (v, n)
    → read_varint (buf ++ more) offset ≡ ok (v, n)
read_varint-append buf more offset v n e =
    let inside : offset ≤ length buf = omega (arith, read_varint_takes buf offset v n e) in
    read_varint_same (buf ++ more) offset
    ∙ rw (drop-append_le offset buf more inside)
        (Laws.read_varint-append _ more v n (sym (read_varint_same buf offset) ∙ e))

-- `read_varint` never panics.
pub read_varint_total :
    (buf : Bytes) (offset : ℕ)
    → ((r : ℕ × ℕ) × (read_varint buf offset ≡ ok r)) ⊎ (read_varint buf offset ≡ nothing)
read_varint_total buf offset =
    rw (read_varint_same buf offset) (Laws.read_varint_total (drop offset buf))
