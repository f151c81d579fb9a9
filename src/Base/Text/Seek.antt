-- ===== src/Base/Text/Seek.antt =====
-- `find` for the first place of one byte, or of a word between quotation marks.
use Prim.Native.Nat.{ℕ, suc, ◌+◌}
use mathlib.Core.Path.{◌≡◌, refl, ap, ◌∙◌}
use mathlib.Core.Logic.{◌≢◌}
use mathlib.Core.Bool.{true, false}
use mathlib.Core.Option.{Option, none, some}
use mathlib.Core.List.{[], ◌∷◌, ◌++◌}
use native.Mathlib.Omega.{arith}
use grpcgi.Base.Lists.{length, drop, All}
use grpcgi.Base.Text.{Text, starts_with, find, next_index, bytes_eq}

-- A text without this byte.
abbrev pub Lacks : ℕ → Text → Type 0
Lacks c text = All (λ (b : ℕ). b ≢ c) text

pub find_byte :
    (c : ℕ) (before after : Text)
    → Lacks c before
    → find (c ∷ []) (before ++ c ∷ after) ≡ some (length before)
unfolding find starts_with
find_byte c [] after lacks = ground arith
find_byte c (b ∷ before) after lacks = ground (arith, find_byte c before after lacks.1)

-- What is behind the first place where a pattern stands.
abbrev pub behind_index : Text → Text → Option ℕ → Option Text
behind_index needle text none = none
behind_index needle text (some i) = some (drop (i + length needle) text)

abbrev pub behind : Text → Text → Option Text
behind needle text = behind_index needle text (find needle text)

next-behind :
    (needle text : Text) (c : ℕ) (o : Option ℕ)
    → behind_index needle (c ∷ text) (next_index o) ≡ behind_index needle text o
next-behind needle text c none = refl
next-behind needle text c (some i) =
    let next : i + 1 + length needle ≡ suc (i + length needle) = omega arith in rw next

pub behind-skip :
    (needle text : Text) (c : ℕ)
    → starts_with needle (c ∷ text) ≡ false
    → behind needle (c ∷ text) ≡ behind needle text
unfolding find
behind-skip needle text c e = rw e (next-behind needle text c (find needle text))

pub behind-here :
    (needle text : Text) (c : ℕ)
    → starts_with needle (c ∷ text) ≡ true
    → behind needle (c ∷ text) ≡ some (drop (length needle) (c ∷ text))
unfolding find
behind-here needle text c e = rw e (ap (λ (n : ℕ). some (drop n (c ∷ text))) (omega arith))

-- A text without the pattern's first byte is passed over.
pub behind-Lacks :
    (p : ℕ) (ps word text : Text)
    → Lacks p word
    → behind (p ∷ ps) (word ++ text) ≡ behind (p ∷ ps) text
unfolding starts_with
behind-Lacks p ps [] text lacks = refl
behind-Lacks p ps (c ∷ word) text lacks =
    let other : starts_with (p ∷ ps) (c ∷ (word ++ text)) ≡ false = ground arith in
    behind-skip (p ∷ ps) (word ++ text) c other ∙ behind-Lacks p ps word text lacks.1

-- Two words that end at the same byte, which neither holds, are compared as a whole.
pub starts_with-word :
    (q : ℕ) (key word text : Text)
    → Lacks q key
    → Lacks q word
    → starts_with (key ++ q ∷ []) (word ++ q ∷ text) ≡ bytes_eq word key
unfolding starts_with bytes_eq
starts_with-word q [] [] text key word = ground arith
starts_with-word q [] (w ∷ ws) text key word = ground arith
starts_with-word q (k ∷ ks) [] text key word = ground arith
starts_with-word q (k ∷ ks) (w ∷ ws) text key word =
    ground (arith, starts_with-word q ks ws text key.1 word.1)
