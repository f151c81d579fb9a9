-- ===== src/Base/Machine.antt =====
-- Machine integers, byte slices and their bounds, as a wasm32 release build has them: `usize` has
-- 32 bits and arithmetic wraps; an index or a range out of bounds panics.
use Prim.Native.Nat.{ℕ, zero, suc, ◌+◌, ◌-◌, ◌*◌, ◌/◌, ◌%◌, ◌^◌, ◌≤◌, ◌<◌}
use mathlib.Core.Path.{◌≡◌, refl, sym, ap, ◌∙◌}
use mathlib.Core.Logic.{inl, inr}
use mathlib.Core.Bool.{◌&&◌}
use mathlib.Core.Option.{Option, none, some}
use mathlib.Core.List.{List, [], ◌∷◌, ◌++◌}
use native.Mathlib.Nat.{suc-add}
use native.Mathlib.Omega.{arith}
use grpcgi.Base.Tests.{leb, if◌then◌else◌, Bool-cases}
use grpcgi.Base.Lists.{length, get_elem?, take, drop, length-append, take-append_self}
use grpcgi.Base.Lists.{drop-append_self, drop-append_le, take-append_le, length-drop}
use grpcgi.Base.Results.{Outcome, ok, panic}

abbrev pub Bytes : Type 0
Bytes = List ℕ

abbrev pub IsByte : ℕ → Type 0
IsByte b = b < 256

abbrev pub IsU64 : ℕ → Type 0
IsU64 v = v < 2 ^ 64

abbrev pub u8 : ℕ → ℕ
u8 n = n % 2 ^ 8

abbrev pub u16 : ℕ → ℕ
u16 n = n % 2 ^ 16

abbrev pub u32 : ℕ → ℕ
u32 n = n % 2 ^ 32

abbrev pub u64 : ℕ → ℕ
u64 n = n % 2 ^ 64

-- `n as usize`, and the wrap-around of `usize` arithmetic.
abbrev pub usize : ℕ → ℕ
usize n = n % 2 ^ 32

-- No slice is longer than `isize::MAX` bytes.
abbrev pub IsSlice : Bytes → Type 0
IsSlice buf = length buf < 2 ^ 31

-- What a read that may be out of bounds does.
abbrev pub checked {ℓ} : {A : Type ℓ} → Option A → Outcome A
checked none = panic
checked (some a) = ok a

-- `buf[i]`
abbrev pub index : Bytes → ℕ → Outcome ℕ
index buf i = checked (get_elem? buf i)

-- `&buf[from..to]`
abbrev pub slice : Bytes → ℕ → ℕ → Outcome Bytes
slice buf from to =
    if leb from to && leb to (length buf) then ok (take (to - from) (drop from buf)) else panic

-- `&buf[from..]`
abbrev pub slice_from : Bytes → ℕ → Outcome Bytes
slice_from buf from = if leb from (length buf) then ok (drop from buf) else panic

pub slice-eq-ok :
    (buf : Bytes) (from to : ℕ)
    → from ≤ to
    → to ≤ length buf
    → slice buf from to ≡ ok (take (to - from) (drop from buf))
slice-eq-ok buf from to p q = ground arith

pub slice-eq-panic : (buf : Bytes) (from to : ℕ) → to < from → slice buf from to ≡ panic
slice-eq-panic buf from to h = ground arith

-- `uN::to_be_bytes` for `n` bytes, and `uN::from_be_bytes`.
abbrev pub to_be_bytes : ℕ → ℕ → Bytes
to_be_bytes zero v = []
to_be_bytes (suc n) v = v / 256 ^ n % 256 ∷ to_be_bytes n v

abbrev pub from_be_bytes : ℕ → Bytes → ℕ
from_be_bytes acc [] = acc
from_be_bytes acc (b ∷ bs) = from_be_bytes (acc * 256 + b) bs

pub from_be_bytes_16 : (v : ℕ) → v < 2 ^ 16 → from_be_bytes 0 (to_be_bytes 2 v) ≡ v
from_be_bytes_16 v h = omega arith

pub from_be_bytes_64 : (v : ℕ) → v < 2 ^ 64 → from_be_bytes 0 (to_be_bytes 8 v) ≡ v
from_be_bytes_64 v h = omega arith

-- Reading behind a known front.
pub get_elem?-append :
    (before after : Bytes) (i : ℕ)
    → get_elem? (before ++ after) (length before + i) ≡ get_elem? after i
get_elem?-append [] after i = ap (get_elem? after) (omega arith)
get_elem?-append (b ∷ before) after i = rw suc-add (get_elem?-append before after i)

pub slice-append :
    (before mid after : Bytes) (from to : ℕ)
    → from ≡ length before
    → to ≡ length before + length mid
    → slice (before ++ (mid ++ after)) from to ≡ ok mid
slice-append before mid after from to e f =
    slice-eq-ok _ from to (omega arith)
      (omega (arith, length-append before (mid ++ after), length-append mid after))
    ∙ ap ok (cut ∙ take-append_self mid after)
  where
    cut : take (to - from) (drop from (before ++ (mid ++ after))) ≡ take (length mid) (mid ++ after)
    cut =
        let width : to - from ≡ length mid = omega arith in
        rw (width, e, drop-append_self before (mid ++ after))

-- Bytes added behind the part that is read do not show.
pub get_elem?-append_lt :
    (buf more : Bytes) (i : ℕ) → i < length buf → get_elem? (buf ++ more) i ≡ get_elem? buf i
get_elem?-append_lt [] more i h = absurd (omega arith)
get_elem?-append_lt (b ∷ buf) more zero h = refl
get_elem?-append_lt (b ∷ buf) more (suc i) h = get_elem?-append_lt buf more i (omega arith)

pub slice-append_le :
    (buf more : Bytes) (from to : ℕ)
    → to ≤ length buf
    → slice (buf ++ more) from to ≡ slice buf from to
slice-append_le buf more from to h = elim (Bool-cases (leb from to)) [
  | inl inside ↦
      let below : from ≤ to = ground arith in
      slice-eq-ok (buf ++ more) from to below (omega (arith, length-append buf more))
      ∙ rw
          (
            drop-append_le from buf more (omega arith),
            take-append_le (to - from) (drop from buf) more (omega (arith, length-drop from buf)),
          )
          (sym (slice-eq-ok buf from to below h))
  | inr outside ↦ rw outside
]

pub get_elem?-lt : (buf : Bytes) (i : ℕ) → i < length buf → (b : ℕ) × (get_elem? buf i ≡ some b)
get_elem?-lt [] i h = absurd (omega arith)
get_elem?-lt (b ∷ buf) zero h = (b, refl)
get_elem?-lt (b ∷ buf) (suc i) h = get_elem?-lt buf i (omega arith)
