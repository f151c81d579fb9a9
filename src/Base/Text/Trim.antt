-- ===== src/Base/Text/Trim.antt =====
-- What `trim` and `trim_start` do to a text that has visible ASCII characters at its ends.
use Prim.Native.Nat.{ℕ, zero, suc, ◌<◌, ◌≤◌}
use mathlib.Core.Path.{◌≡◌, refl, ap, ◌∙◌}
use mathlib.Core.Logic.{◌≢◌}
use mathlib.Core.Option.{none}
use mathlib.Core.List.{List, [], ◌∷◌, ◌++◌, map, reverse, reverse-reverse}
use native.Mathlib.Omega.{arith}
use grpcgi.Base.Lists.{length, length-append, All}
use grpcgi.Base.Machine.{Bytes}
use grpcgi.Base.Text.{
  Text, starts_with, strip_any, trim_loop, trim_start, trim_end, trim, white_spaces,
}

-- A text that does not start with white space or with a byte that is not ASCII.
abbrev pub StartsVisible : Text → Type 0
StartsVisible [] = 0 ≤ 0
StartsVisible (c ∷ cs) = (0x20 < c) × (c < 0x7f)

-- Nor does it end with one.
abbrev pub IsTrimmed : Text → Type 0
IsTrimmed text = StartsVisible text × StartsVisible (reverse text)

abbrev pub spaces : ℕ → Text
spaces zero = []
spaces (suc n) = b' ' ∷ spaces n

abbrev StartsOther : ℕ → Bytes → Type 0
StartsOther c [] = 1 ≤ 0
StartsOther c (w ∷ ws) = w ≢ c

strip_none :
    (ws : List Bytes) (c : ℕ) (cs : Text) → All (StartsOther c) ws → strip_any ws (c ∷ cs) ≡ none
unfolding strip_any starts_with
strip_none [] c cs other = refl
strip_none ([] ∷ ws) c cs other = absurd (omega (arith, other.0))
strip_none ((w ∷ more) ∷ ws) c cs other = ground (arith, strip_none ws c cs other.1)

trim_loop-none :
    (fuel : ℕ) (ws : List Bytes) (text : Text)
    → strip_any ws text ≡ none
    → trim_loop fuel ws text ≡ text
unfolding trim_loop
trim_loop-none zero ws text e = refl
trim_loop-none (suc fuel) ws text e = rw (e, trim_loop)

strip_white : (text : Text) → StartsVisible text → strip_any white_spaces text ≡ none
strip_white [] visible = unfold strip_any starts_with in refl
strip_white (c ∷ cs) visible = strip_none white_spaces c cs (omega (arith, visible))

strip_reversed :
    (text : Text) → StartsVisible text → strip_any (map reverse white_spaces) text ≡ none
strip_reversed [] visible = unfold strip_any starts_with in refl
strip_reversed (c ∷ cs) visible =
    strip_none (map reverse white_spaces) c cs (omega (arith, visible))

trim_loop-spaces :
    (n fuel : ℕ) (text : Text)
    → n ≤ fuel
    → StartsVisible text
    → trim_loop fuel white_spaces (spaces n ++ text) ≡ text
unfolding trim_loop strip_any starts_with
trim_loop-spaces zero fuel text enough visible =
    trim_loop-none fuel white_spaces text (strip_white text visible)
trim_loop-spaces (suc n) zero text enough visible = absurd (omega arith)
trim_loop-spaces (suc n) (suc fuel) text enough visible =
    trim_loop-spaces n fuel text (omega arith) visible

length-spaces : (n : ℕ) → length (spaces n) ≡ n
length-spaces zero = omega arith
length-spaces (suc n) = omega (arith, length-spaces n)

-- Leading spaces are taken off, and nothing else is.
pub trim_start-spaces :
    (n : ℕ) (text : Text) → StartsVisible text → trim_start (spaces n ++ text) ≡ text
unfolding trim_start
trim_start-spaces n text visible =
    trim_loop-spaces n _ text (omega (arith, length-append (spaces n) text, length-spaces n))
      visible

trim_end-IsTrimmed : (text : Text) → IsTrimmed text → trim_end text ≡ text
unfolding trim_end
trim_end-IsTrimmed text trimmed =
    ap reverse (trim_loop-none _ _ (reverse text) (strip_reversed (reverse text) trimmed.1))
    ∙ reverse-reverse text

pub trim-spaces : (n : ℕ) (text : Text) → IsTrimmed text → trim (spaces n ++ text) ≡ text
unfolding trim
trim-spaces n text trimmed =
    rw (trim_start-spaces n text trimmed.0) (trim_end-IsTrimmed text trimmed)
