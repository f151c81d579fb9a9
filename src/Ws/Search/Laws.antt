-- ===== src/Ws/Search/Laws.antt =====
-- The search finds the first occurrence, and finds one where there is one.
use grpcgi.Base.{
  ℕ, zero, suc, ◌+◌, ◌≤◌, ◌<◌, arith, ◌≡◌, ◌≢◌, refl, sym, subst, ◌∙◌, Bool-cases, inl, inr,
}
use grpcgi.Base.{[], ◌∷◌, length, take, drop}
use grpcgi.Base.{ok, nothing, Option, none, some, ltb, Option-cases, false, ◌==◌}
use grpcgi.Base.{length-drop, drop-append_le, take-append_le, ◌⊎◌, ap, ◌++◌, length-take}
use grpcgi.Base.Machine.{Bytes}
use grpcgi.Base.Text.{bytes_eq, bytes_eq_iff}
use grpcgi.Ws.Search.{windows, position, find_subsequence, or_nothing}

-- `needle` stands in `haystack` at index `i`.
abbrev pub OccursAt : Bytes → Bytes → ℕ → Type 0
OccursAt haystack needle i = take (length needle) (drop i haystack) ≡ needle

-- The first place where `needle` stands.
abbrev pub FirstAt : Bytes → Bytes → ℕ → Type 0
FirstAt haystack needle i =
    OccursAt haystack needle i × ((j : ℕ) → j < i → ¬ OccursAt haystack needle j)

FirstAt-suc :
    (x : ℕ) (xs needle : Bytes) (k : ℕ)
    → ¬ OccursAt (x ∷ xs) needle 0
    → FirstAt xs needle k
    → FirstAt (x ∷ xs) needle (suc k)
FirstAt-suc x xs needle k not_here (there, none_before) = (there, earlier)
  where
    earlier : (j : ℕ) → j < suc k → ¬ OccursAt (x ∷ xs) needle j
    earlier zero h = not_here
    earlier (suc j) h = none_before j (omega arith)

module _ (needle : Bytes) (some_needle : 0 < length needle) where
  position_first :
      (haystack : Bytes) (i : ℕ)
      → position (windows (length needle) haystack) needle ≡ some i
      → FirstAt haystack needle i
  unfolding windows position
  position_first [] i e = cc
  position_first (x ∷ xs) i e = elim (Bool-cases (ltb (length (x ∷ xs)) (length needle))) [
    | inl short ↦ cc (rw short at e)
    | inr long ↦ elim (Bool-cases (bytes_eq (take (length needle) (x ∷ xs)) needle)) [
      | inl here ↦
          let at_0 : ◌≡◌ {A = ℕ} 0 i = cc (rw (long, here) at e) in
          subst (FirstAt (x ∷ xs) needle) at_0
            ((bytes_eq_iff _ needle).0 here, λ j h. absurd (omega arith))
      | inr not_here ↦ elim (Option-cases (position (windows (length needle) xs) needle)) [
        | inl nowhere ↦ cc (rw (long, not_here, nowhere) at e)
        | inr (k, found) ↦
            let next : k + 1 ≡ i = cc (rw (long, not_here, found) at e) in
            let at_suc : suc k ≡ i = omega arith in
            subst (FirstAt (x ∷ xs) needle) at_suc (
              FirstAt-suc x xs needle k
                (λ at_front. cc ((bytes_eq_iff _ needle).1 at_front, not_here))
                (position_first xs k found))
      ]
    ]
  ]

  -- Where the needle stands somewhere, the search does not come back with nothing.
  position-ne-none :
      (haystack : Bytes) (i : ℕ)
      → i + length needle ≤ length haystack
      → OccursAt haystack needle i
      → position (windows (length needle) haystack) needle ≢ none
  unfolding windows position
  position-ne-none [] i fits there = absurd (omega arith)
  position-ne-none (x ∷ xs) zero fits there =
      let here = (bytes_eq_iff (take (length needle) (x ∷ xs)) needle).1 there in
      let long : ltb (length (x ∷ xs)) (length needle) ≡ false = ground arith in
      λ e. cc (rw (long, here) at e)
  position-ne-none (x ∷ xs) (suc i) fits there =
      let long : ltb (length (x ∷ xs)) (length needle) ≡ false = ground arith in
      ground (arith, long, position-ne-none xs i (omega arith) there)

find_subsequence-position :
    (haystack needle : Bytes)
    → 0 < length needle
    → find_subsequence haystack needle
      ≡ or_nothing (position (windows (length needle) haystack) needle)
unfolding find_subsequence
find_subsequence-position haystack needle some_needle =
    let not_empty : (length needle == 0) ≡ false = ground arith in rw not_empty

or_nothing-ok : (o : Option ℕ) (i : ℕ) → or_nothing o ≡ ok i → o ≡ some i
or_nothing-ok none i e = cc
or_nothing-ok (some k) i e = cc

or_nothing-nothing : (o : Option ℕ) → or_nothing o ≡ nothing → o ≡ none
or_nothing-nothing none e = refl
or_nothing-nothing (some k) e = cc

-- Where `find_subsequence` answers with an index, that is the first place where the needle stands.
pub find_subsequence_first :
    (haystack needle : Bytes) (i : ℕ)
    → 0 < length needle
    → find_subsequence haystack needle ≡ ok i
    → FirstAt haystack needle i
find_subsequence_first haystack needle i some_needle e =
    let found = position (windows (length needle) haystack) needle in
    position_first needle some_needle haystack i
      (or_nothing-ok found i (sym (find_subsequence-position haystack needle some_needle) ∙ e))

-- Where `find_subsequence` answers `None`, the needle stands nowhere in the haystack.
pub find_subsequence_none :
    (haystack needle : Bytes) (i : ℕ)
    → 0 < length needle
    → find_subsequence haystack needle ≡ nothing
    → i + length needle ≤ length haystack
    → ¬ OccursAt haystack needle i
find_subsequence_none haystack needle i some_needle e fits there =
    let found = position (windows (length needle) haystack) needle in
    position-ne-none needle some_needle haystack i fits there
      (or_nothing-nothing found (sym (find_subsequence-position haystack needle some_needle) ∙ e))

-- The search neither panics nor gets stuck on a needle that is not empty.
pub find_subsequence_cases :
    (haystack needle : Bytes)
    → 0 < length needle
    → (find_subsequence haystack needle ≡ nothing)
      ⊎ ((i : ℕ) × (find_subsequence haystack needle ≡ ok i))
find_subsequence_cases haystack needle some_needle =
    rw (find_subsequence-position haystack needle some_needle)
      (by_place (position (windows (length needle) haystack) needle))
  where
    by_place : (o : Option ℕ) → (or_nothing o ≡ nothing) ⊎ ((i : ℕ) × (or_nothing o ≡ ok i))
    by_place none = inl refl
    by_place (some i) = inr (i, refl)

pub OccursAt-fits :
    (haystack needle : Bytes) (i : ℕ)
    → 0 < length needle
    → OccursAt haystack needle i
    → i + length needle ≤ length haystack
OccursAt-fits haystack needle i some_needle there =
    omega (
      arith,
      ap length there,
      length-take (length needle) (drop i haystack),
      length-drop i haystack,
    )

-- An occurrence stays one when bytes are added behind, and when the text is part of a longer one.
pub OccursAt-append :
    (haystack more needle : Bytes) (i : ℕ)
    → i + length needle ≤ length haystack
    → OccursAt haystack needle i
    → OccursAt (haystack ++ more) needle i
OccursAt-append haystack more needle i fits there =
    rw
      (
        drop-append_le i haystack more (omega arith),
        take-append_le (length needle) (drop i haystack) more
            (omega (arith, length-drop i haystack)),
      )
      there

-- Wherever the needle, which is not empty, first stands in the haystack, `find_subsequence` answers with
-- that index.
pub find_subsequence-FirstAt :
    (haystack needle : Bytes) (i : ℕ)
    → 0 < length needle
    → FirstAt haystack needle i
    → find_subsequence haystack needle ≡ ok i
find_subsequence-FirstAt haystack needle i some_needle (there, none_before) =
    elim (find_subsequence_cases haystack needle some_needle) [
      | inl nowhere ↦ absurd (
          find_subsequence_none haystack needle i some_needle nowhere
            (OccursAt-fits haystack needle i some_needle there) there)
      | inr (j, found) ↦
          let (found_there, none_earlier) =
            find_subsequence_first haystack needle j some_needle found in
          elim (lt_cases j i) [
            | inl before ↦ absurd (none_before j before found_there)
            | inr (inl later) ↦ absurd (none_earlier i later there)
            | inr (inr same) ↦ found ∙ ap ok same
          ]
    ]
  where
    lt_cases : (a b : ℕ) → (a < b) ⊎ ((b < a) ⊎ (a ≡ b))
    lt_cases a b = ground arith

-- Where the needle first stands behind a front, it is not found in the front alone.
pub find_subsequence_front :
    (front back needle : Bytes) (i : ℕ)
    → 0 < length needle
    → FirstAt (front ++ back) needle i
    → length front < i + length needle
    → find_subsequence front needle ≡ nothing
find_subsequence_front front back needle i some_needle (there, none_before) short =
    elim (find_subsequence_cases front needle some_needle) [
      | inl nowhere ↦ nowhere
      | inr (j, found) ↦
          let (found_there, _) = find_subsequence_first front needle j some_needle found in
          let fits = OccursAt-fits front needle j some_needle found_there in
          absurd
            (none_before j (omega arith) (OccursAt-append front back needle j fits found_there))
    ]
