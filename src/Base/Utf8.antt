-- ===== src/Base/Utf8.antt =====
-- `str::from_utf8` and `String::from_utf8_lossy`: UTF-8 as RFC 3629 defines it.
use Prim.Native.Nat.{ℕ, zero, suc}
use mathlib.Core.Bool.{Bool, true, false, ◌&&◌}
use mathlib.Core.Path.{◌≡◌, refl}
use mathlib.Core.Option.{Option, none, some}
use mathlib.Core.List.{[], ◌∷◌, ◌++◌}
use grpcgi.Base.Tests.{ltb, leb, ◌==◌, if◌then◌else◌}
use grpcgi.Base.Lists.{length, take, drop, take-append-drop}
use grpcgi.Base.Machine.{Bytes}

-- How many bytes follow a first byte, and the range of the second byte; `none` for a byte that
-- starts no character.
unfoldable pub lead : ℕ → Option (ℕ × ℕ × ℕ)
lead b =
    if ltb b 0x80
    then some (0, 0, 0)
    else if leb 0xc2 b && leb b 0xdf
    then some (1, 0x80, 0xbf)
    else if b == 0xe0
    then some (2, 0xa0, 0xbf)
    else if b == 0xed
    then some (2, 0x80, 0x9f)
    else if leb 0xe1 b && leb b 0xef
    then some (2, 0x80, 0xbf)
    else if b == 0xf0
    then some (3, 0x90, 0xbf)
    else if leb 0xf1 b && leb b 0xf3
    then some (3, 0x80, 0xbf)
    else if b == 0xf4
    then some (3, 0x80, 0x8f)
    else none

-- How many bytes of the list continue a character that wants `want` more, the first of them from
-- `low` to `high`.
unfoldable pub continues : ℕ → ℕ → ℕ → Bytes → ℕ
continues zero low high l = 0
continues (suc want) low high [] = 0
continues (suc want) low high (b ∷ l) =
    let more = suc (continues want 0x80 0xbf l) in if leb low b && leb b high then more else 0

-- A whole character at the front, or the bytes that are replaced together.
pub data Chunk : Type 0 where
  char : ℕ → Chunk
  bad : ℕ → Chunk

unfoldable pub chunk : ℕ → Bytes → Chunk
chunk b l = elim (lead b) [
  | none ↦ bad 1
  | some (want, low, high) ↦
      let got = continues want low high l in if got == want then char (suc want) else bad (suc got)
]

-- The fuel is the length: each chunk has a byte at least.
unfoldable pub is_utf8_loop : ℕ → Bytes → Bool
is_utf8_loop fuel [] = true
is_utf8_loop zero (b ∷ l) = false
is_utf8_loop (suc fuel) (b ∷ l) = elim (chunk b l) [
  | char n ↦ is_utf8_loop fuel (drop n (b ∷ l))
  | bad n ↦ false
]

-- `str::from_utf8(bytes).is_ok()`
unfoldable pub is_utf8 : Bytes → Bool
is_utf8 bytes = is_utf8_loop (length bytes) bytes

unfoldable pub lossy_loop : ℕ → Bytes → Bytes
lossy_loop fuel [] = []
lossy_loop zero (b ∷ l) = []
lossy_loop (suc fuel) (b ∷ l) = elim (chunk b l) [
  | char n ↦ take n (b ∷ l) ++ lossy_loop fuel (drop n (b ∷ l))
  | bad n ↦ (0xef ∷ 0xbf ∷ 0xbd ∷ []) ++ lossy_loop fuel (drop n (b ∷ l))
]

-- `String::from_utf8_lossy`, with U+FFFD for each maximal piece that is not UTF-8.
unfoldable pub from_utf8_lossy : Bytes → Bytes
from_utf8_lossy bytes = lossy_loop (length bytes) bytes

lossy_chunk-utf8 :
    (c : Chunk) (fuel : ℕ) (l : Bytes)
    → ((n : ℕ) → is_utf8_loop fuel (drop n l) ≡ true → lossy_loop fuel (drop n l) ≡ drop n l)
    → (elim c [ char n ↦ is_utf8_loop fuel (drop n l) | bad n ↦ false ]) ≡ true
    → (elim c [
      | char n ↦ take n l ++ lossy_loop fuel (drop n l)
      | bad n ↦ (0xef ∷ 0xbf ∷ 0xbd ∷ []) ++ lossy_loop fuel (drop n l)
    ])
      ≡ l
lossy_chunk-utf8 (char n) fuel l later valid = rw (later n valid) (take-append-drop n l)
lossy_chunk-utf8 (bad n) fuel l later valid = cc

lossy_loop-utf8 : (fuel : ℕ) (l : Bytes) → is_utf8_loop fuel l ≡ true → lossy_loop fuel l ≡ l
unfolding is_utf8_loop lossy_loop
lossy_loop-utf8 fuel [] e = refl
lossy_loop-utf8 zero (b ∷ l) e = cc
lossy_loop-utf8 (suc fuel) (b ∷ l) e =
    lossy_chunk-utf8 (chunk b l) fuel (b ∷ l) (λ n. lossy_loop-utf8 fuel (drop n (b ∷ l))) e

-- Text that is UTF-8 is kept as it is.
pub from_utf8_lossy-utf8 : (l : Bytes) → is_utf8 l ≡ true → from_utf8_lossy l ≡ l
unfolding is_utf8 from_utf8_lossy
from_utf8_lossy-utf8 l e = lossy_loop-utf8 (length l) l e
