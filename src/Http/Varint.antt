-- ===== src/Http/Varint.antt =====
-- `write_varint` and `read_varint` of wasm/http-bridge/src/lib.rs.
pub mod Laws
use grpcgi.Base.{ℕ, zero, suc, ◌+◌, ◌*◌, ◌/◌, ◌^◌, ◌<◌, bit_and, bit_or, arith}
use grpcgi.Base.{List, [], ◌∷◌, ◌++◌, leb, ◌==◌, if◌then◌else◌, dite, dec_lt, Acc, lt_wf}
use grpcgi.Base.{Outcome, ok, nothing}
use grpcgi.Base.Machine.{Bytes, u8, u64}

pub shifted-lt : (v : ℕ) → 0 < v / 128 → v / 128 < v
shifted-lt v h = omega arith

-- The loop goes on while `v >> 7` is not 0.
unfoldable pub write_varint_loop : (v : ℕ) → Acc ◌<◌ v → Bytes → Bytes
write_varint_loop v (Acc.intro _ smaller) buf =
    let b = u8 (bit_and v 0x7f) in
    dite (dec_lt 0 (v / 128))
      (λ more.
        write_varint_loop (v / 128) (smaller _ (shifted-lt v more)) (buf ++ (bit_or b 0x80 ∷ [])))
      (λ _. buf ++ (b ∷ []))

unfoldable pub write_varint : ℕ → Bytes → Bytes
write_varint v buf = write_varint_loop v (lt_wf.apply v) buf

-- `val |= ((b & 0x7F) as u64) << shift`
abbrev pub add_group : ℕ → ℕ → ℕ → ℕ
add_group val b shift = bit_or val (u64 (bit_and b 0x7f * 2 ^ shift))

-- The list is what the iterator has not reached, and `i` counts what it has.
unfoldable pub read_varint_loop : Bytes → ℕ → ℕ → ℕ → Outcome (ℕ × ℕ)
read_varint_loop [] i val shift = nothing
read_varint_loop (b ∷ rest) i val shift =
    let val' = add_group val b shift in
    let next = read_varint_loop rest (i + 1) val' (shift + 7) in
    if bit_and b 0x80 == 0 then ok (val', i + 1) else if leb 64 (shift + 7) then nothing else next

unfoldable pub read_varint : Bytes → Outcome (ℕ × ℕ)
unfolding read_varint_loop
read_varint buf = read_varint_loop buf 0 0 0
