-- ===== src/Ws/Varint.antt =====
-- `write_varint` and `read_varint` of wasm/src/lib.rs.
pub mod Laws
use grpcgi.Base.{ℕ, ◌+◌, ◌-◌, ◌*◌, ◌/◌, ◌^◌, ◌<◌, bit_and, bit_or, arith}
use grpcgi.Base.{[], ◌∷◌, ◌++◌, leb, ◌==◌, if◌then◌else◌, dite, dec_lt, drop, Acc, lt_wf}
use grpcgi.Base.{Outcome, ok, nothing}
use grpcgi.Base.Machine.{Bytes, u8, u64}

pub shifted-lt : (v : ℕ) → 0 < v / 128 → v / 128 < v
shifted-lt v h = omega arith

-- The loop goes on while `v >> 7` is not 0.
unfoldable pub write_varint_loop : Bytes → (v : ℕ) → Acc ◌<◌ v → Bytes
write_varint_loop buf v (Acc.intro _ smaller) =
    let byte = u8 (bit_and v 0x7f) in
    dite (dec_lt 0 (v / 128))
      (λ more.
        write_varint_loop (buf ++ (bit_or byte 0x80 ∷ [])) (v / 128)
          (smaller _ (shifted-lt v more)))
      (λ _. buf ++ (byte ∷ []))

unfoldable pub write_varint : Bytes → ℕ → Bytes
write_varint buf v = write_varint_loop buf v (lt_wf.apply v)

-- The loop from index `i` on; the list is `buf[i..]`. As `i` is below `buf.len()` where it is
-- raised, it cannot wrap, and `shift` stays at most 63.
unfoldable pub read_varint_loop : Bytes → ℕ → ℕ → ℕ → ℕ → Outcome (ℕ × ℕ)
read_varint_loop [] offset i result shift = nothing
read_varint_loop (byte ∷ rest) offset i result shift =
    let i' = i + 1 in
    let result' = bit_or result (u64 (bit_and byte 0x7f * 2 ^ shift)) in
    let next = read_varint_loop rest offset i' result' (shift + 7) in
    if bit_and byte 0x80 == 0
    then ok (result', i' - offset)
    else if leb 64 (shift + 7)
    then nothing
    else next

unfoldable pub read_varint : Bytes → ℕ → Outcome (ℕ × ℕ)
unfolding read_varint_loop
read_varint buf offset = read_varint_loop (drop offset buf) offset offset 0 0
