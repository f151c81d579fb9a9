-- ===== src/Http/Json/Flat.antt =====
-- `json_str_field` of wasm/http-bridge/src/lib.rs on flat JSON objects of strings.
pub mod Passing
pub mod Read
use grpcgi.Base.{
  ℕ, zero, suc, ◌+◌, ◌≤◌, ◌<◌, ◌⊎◌, ◌≡◌, ◌≢◌, refl, sym, ap, ◌∙◌, true, false, arith, List, [], ◌∷◌,
  ◌++◌, length, take, drop,
}
use grpcgi.Base.{
  All, append_assoc, drop-append_self, take-append_self, Option, none, some, Outcome, ok, nothing,
  if◌then◌else◌, ◌>>=◌, ◌==◌, Bool-cases, Option-cases, inl, inr,
}
use grpcgi.Base.Text.{Text, ascii, find, starts_with, trim_start, bytes_eq, bytes_eq_iff}
use grpcgi.Base.Text.Trim.{spaces, trim_start-spaces}
use grpcgi.Base.Text.Seek.{
  Lacks, find_byte, behind, behind_index, behind-skip, behind-here, behind-Lacks, starts_with-word,
}
use grpcgi.Http.Json.{found, quotation_mark, json_str_field}

-- A member of an object whose value is a string, with the spaces in front of its key, in front of its
-- colon, in front of its value and behind its value.
pub record Member : Type 0 where
  pub lead : ℕ
  pub key : Text
  pub before_colon : ℕ
  pub gap : ℕ
  pub value : Text
  pub trail : ℕ

abbrev pub quoted : Text → Text → Text
quoted word rest = b'"' ∷ (word ++ b'"' ∷ rest)

-- The members behind a brace or a comma, and the end of the object.
abbrev pub members_text : ℕ → List Member → Text
members_text opener [] = b'}' ∷ []
members_text opener (m ∷ ms) =
    opener
    ∷ (spaces m.lead
        ++ quoted m.key (
            spaces m.before_colon
            ++ b':' ∷ (spaces m.gap ++ quoted m.value (spaces m.trail ++ members_text b',' ms))))

-- What is behind the key of a member, and behind its value.
abbrev pub behind_value : Member → List Member → Text
behind_value m ms = spaces m.trail ++ members_text b',' ms

abbrev pub behind_key : Member → List Member → Text
behind_key m ms =
    spaces m.before_colon ++ b':' ∷ (spaces m.gap ++ quoted m.value (behind_value m ms))

-- The text of an object that has a member.
abbrev pub object_text : Member → List Member → Text
object_text m ms = members_text b'{' (m ∷ ms)

-- The value of the first member with this key.
abbrev pub lookup : Text → List Member → Outcome Text
lookup key [] = nothing
lookup key (m ∷ ms) = if bytes_eq m.key key then ok m.value else lookup key ms

-- Strings without quotation marks, and no value that is spelled like the key that is looked for.
pub record IsMember (key : Text) (m : Member) : Type 0 where
  pub key_plain : Lacks b'"' m.key
  pub value_plain : Lacks b'"' m.value
  pub value_other : m.value ≢ key

-- A key of the configuration starts with a small letter and has no quotation mark.
abbrev pub IsKey : Text → Type 0
IsKey [] = 1 ≤ 0
IsKey (c ∷ cs) = (b'a' ≤ c) × (c ≤ b'z') × Lacks b'"' cs

-- The key as it is looked for.
abbrev pub needle : Text → Text
needle key = quotation_mark ++ (key ++ quotation_mark)

-- The same with a value to fall back on.
abbrev pub lookup_or : Text → Text → List Member → Text
lookup_or fallback key [] = fallback
lookup_or fallback key (m ∷ ms) = if bytes_eq m.key key then m.value else lookup_or fallback key ms

pub lookup_cases :
    (fallback key : Text) (ms : List Member)
    → ((lookup key ms ≡ nothing) × (lookup_or fallback key ms ≡ fallback))
      ⊎ (lookup key ms ≡ ok (lookup_or fallback key ms))
lookup_cases fallback key [] = inl (refl, refl)
lookup_cases fallback key (m ∷ ms) = elim (Bool-cases (bytes_eq m.key key)) [
  | inl same ↦ inr (rw same)
  | inr differs ↦ rw differs (lookup_cases fallback key ms)
]
