-- ===== src/Http/Json/Flat/Passing.antt =====
-- Where the key is found in the text of a flat object, for `json_str_field` of
-- wasm/http-bridge/src/lib.rs.
use grpcgi.Base.{
  ℕ, zero, suc, ◌<◌, ◌⊎◌, ◌≡◌, ◌≢◌, refl, sym, ap, ◌∙◌, true, false, arith, List, [], ◌∷◌, ◌++◌,
}
use grpcgi.Base.{
  All, append_assoc, drop-append_self, Option, none, some, if◌then◌else◌, Bool-cases, inl, inr,
}
use grpcgi.Base.Text.{Text, find, starts_with, bytes_eq, bytes_eq_iff}
use grpcgi.Base.Text.Trim.{spaces}
use grpcgi.Base.Text.Seek.{Lacks, behind, behind-skip, behind-here, behind-Lacks, starts_with-word}
use grpcgi.Http.Json.{quotation_mark}
use grpcgi.Http.Json.Flat.{
  Member, quoted, members_text, behind_value, behind_key, IsMember, IsKey, needle,
}

-- What is behind the key.
abbrev pub after_key : Text → List Member → Option Text
after_key key [] = none
after_key key (m ∷ ms) = if bytes_eq m.key key then some (behind_key m ms) else after_key key ms

pub spaces-Lacks : (c n : ℕ) → b' ' ≢ c → Lacks c (spaces n)
spaces-Lacks c zero other = tt
spaces-Lacks c (suc n) other = (other, spaces-Lacks c n other)

IsKey-Lacks : (key : Text) → IsKey key → Lacks b'"' key
IsKey-Lacks [] k = absurd (omega (arith, k))
IsKey-Lacks (c ∷ cs) k = (omega (arith, k.0, k.1), k.2)

module _ (key : Text) (valid : IsKey key) where
  -- The end of a string is not the start of the key.
  end_skip :
      (c : ℕ) (rest : Text)
      → (c < b'a') ⊎ (b'z' < c)
      → starts_with (needle key) (b'"' ∷ c ∷ rest) ≡ false
  unfolding starts_with
  end_skip c rest other = by_key key valid
    where
      by_key :
          (k : Text)
          → IsKey k
          → starts_with (b'"' ∷ (k ++ quotation_mark)) (b'"' ∷ c ∷ rest) ≡ false
      by_key [] v = absurd (omega (arith, v))
      by_key (d ∷ k) v = ground arith

  behind-spaces :
      (n : ℕ) (rest : Text) → behind (needle key) (spaces n ++ rest) ≡ behind (needle key) rest
  behind-spaces n rest =
      behind-Lacks b'"' (key ++ quotation_mark) (spaces n) rest (spaces-Lacks b'"' n (omega arith))

  behind-byte :
      (c : ℕ) (rest : Text) → c ≢ b'"' → behind (needle key) (c ∷ rest) ≡ behind (needle key) rest
  behind-byte c rest other = behind-Lacks b'"' (key ++ quotation_mark) (c ∷ []) rest (other, tt)

  starts-quoted :
      (word rest : Text)
      → Lacks b'"' word
      → starts_with (needle key) (quoted word rest) ≡ bytes_eq word key
  starts-quoted word rest plain =
      unfold starts_with in starts_with-word b'"' key word rest (IsKey-Lacks key valid) plain

  -- A string that is not the key is passed over.
  behind-quoted :
      (word rest : Text) (c : ℕ)
      → Lacks b'"' word
      → bytes_eq word key ≡ false
      → (c < b'a') ⊎ (b'z' < c)
      → behind (needle key) (quoted word (c ∷ rest)) ≡ behind (needle key) (c ∷ rest)
  behind-quoted word rest c plain differs closes =
      behind-skip (needle key) (word ++ b'"' ∷ c ∷ rest) b'"'
        (starts-quoted word (c ∷ rest) plain ∙ differs)
      ∙ behind-Lacks b'"' (key ++ quotation_mark) word (b'"' ∷ c ∷ rest) plain
      ∙ behind-skip (needle key) (c ∷ rest) b'"' (end_skip c rest closes)

  -- The same with spaces behind the string.
  behind-quoted-spaces :
      (word rest : Text) (n c : ℕ)
      → Lacks b'"' word
      → bytes_eq word key ≡ false
      → (c < b'a') ⊎ (b'z' < c)
      → behind (needle key) (quoted word (spaces n ++ c ∷ rest)) ≡ behind (needle key) (c ∷ rest)
  behind-quoted-spaces word rest zero c plain differs closes =
      behind-quoted word rest c plain differs closes
  behind-quoted-spaces word rest (suc n) c plain differs closes =
      behind-quoted word (spaces n ++ c ∷ rest) b' ' plain differs (inl (omega arith))
      ∙ behind-spaces (suc n) (c ∷ rest)

  behind-key :
      (word rest : Text)
      → Lacks b'"' word
      → bytes_eq word key ≡ true
      → behind (needle key) (quoted word rest) ≡ some rest
  behind-key word rest plain same =
      let is_key : word ≡ key = (bytes_eq_iff word key).0 same in
      let whole : quoted word rest ≡ (needle key) ++ rest =
        ap (λ (w : Text). quoted w rest) is_key
        ∙ ap (◌∷◌ b'"') (sym (append_assoc key quotation_mark rest)) in
      behind-here (needle key) (word ++ b'"' ∷ rest) b'"' (starts-quoted word rest plain ∙ same)
      ∙ rw whole (ap some (drop-append_self (needle key) rest))

  behind-value :
      (m : Member) (ms : List Member)
      → IsMember key m
      → behind (needle key) (b':' ∷ (spaces m.gap ++ quoted m.value (behind_value m ms)))
        ≡ behind (needle key) (members_text b',' ms)
  behind-value m ms member =
      let differs : bytes_eq m.value key ≡ false = elim (Bool-cases (bytes_eq m.value key)) [
        | inl same ↦ absurd (member.value_other ((bytes_eq_iff m.value key).0 same))
        | inr other ↦ other
      ] in
      behind-byte b':' _ (omega arith) ∙ behind-spaces m.gap _ ∙ by_rest ms differs
    where
      by_rest :
          (l : List Member)
          → bytes_eq m.value key ≡ false
          → behind (needle key) (quoted m.value (behind_value m l))
            ≡ behind (needle key) (members_text b',' l)
      by_rest [] differs =
          behind-quoted-spaces m.value [] m.trail b'}' member.value_plain differs
            (inr (omega arith))
      by_rest (n ∷ l) differs =
          behind-quoted-spaces m.value _ m.trail b',' member.value_plain differs (inl (omega arith))

  pub behind-members :
      (opener : ℕ) (ms : List Member)
      → opener ≢ b'"'
      → All (IsMember key) ms
      → behind (needle key) (members_text opener ms) ≡ after_key key ms
  behind-members opener [] other all =
      behind-byte b'}' [] (omega arith) ∙ unfold find starts_with in refl
  behind-members opener (m ∷ ms) other all =
      let rest : Text = spaces m.gap ++ quoted m.value (behind_value m ms) in
      behind-byte opener _ other ∙ behind-spaces m.lead _ ∙ elim (Bool-cases (bytes_eq m.key key)) [
        | inl same ↦ behind-key m.key (behind_key m ms) all.0.key_plain same ∙ rw same
        | inr differs ↦
            behind-quoted-spaces m.key rest m.before_colon b':' all.0.key_plain differs
              (inl (omega arith))
            ∙ behind-value m ms all.0
            ∙ behind-members b',' ms (omega arith) all.1
            ∙ rw differs
      ]
