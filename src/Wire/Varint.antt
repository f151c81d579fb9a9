-- ===== src/Wire/Varint.antt =====
-- Base-128 varints as the protobuf documentation describes them: groups of seven bits, lowest
-- first, with the top bit set on every byte but the last.
use grpcgi.Base.{ℕ, zero, suc, ◌+◌, ◌/◌, ◌%◌, ◌^◌, ◌≤◌, ◌<◌, ◌≡◌, arith}
use grpcgi.Base.{[], ◌∷◌, length, All, ltb, if◌then◌else◌}
use grpcgi.Base.Machine.{Bytes, IsByte}

-- The varint of `v`, in at most `k + 1` bytes.
unfoldable pub groups : ℕ → ℕ → Bytes
groups zero v = v ∷ []
groups (suc k) v =
    let rest = groups k (v / 128) in if ltb v 128 then v ∷ [] else (v % 128 + 128) ∷ rest

-- The varint of a 64-bit number.
abbrev pub varint : ℕ → Bytes
varint v = groups 9 v

pub groups-IsByte : (k v : ℕ) → v < 128 ^ suc k → All IsByte (groups k v)
unfolding groups
groups-IsByte zero v h = omega arith
groups-IsByte (suc k) v h = ground (arith, groups-IsByte k (v / 128) (omega arith))

pub length-groups : (k v : ℕ) → (1 ≤ length (groups k v)) × (length (groups k v) ≤ k + 1)
unfolding groups
length-groups zero v = omega arith
length-groups (suc k) v = ground (arith, length-groups k (v / 128))

-- A number of one group is its own varint.
pub varint_small : (v : ℕ) → v < 128 → varint v ≡ v ∷ []
unfolding groups
varint_small v h = ground arith
