-- ===== src/Http/Json/Flat/Read.antt =====
-- `json_str_field` of wasm/http-bridge/src/lib.rs on the text of a flat object.
use grpcgi.Base.{ℕ, ◌+◌, ◌≡◌, refl, ap, ◌∙◌, arith, List, [], ◌∷◌, ◌++◌, length, drop}
use grpcgi.Base.{All, take-append_self, Option, none, some, ok, nothing, Bool-cases, inl, inr}
use grpcgi.Base.Text.{Text, find, starts_with, bytes_eq}
use grpcgi.Base.Text.Trim.{spaces, trim_start-spaces}
use grpcgi.Base.Text.Seek.{Lacks, find_byte, behind_index}
use grpcgi.Http.Json.{json_str_field}
use grpcgi.Http.Json.Flat.{
  Member, quoted, behind_value, behind_key, object_text, lookup, IsMember, IsKey, needle,
}
use grpcgi.Http.Json.Flat.Passing.{spaces-Lacks, after_key, behind-members}

drop-append_next :
    (before : Text) (c : ℕ) (after : Text) → drop (length before + 1) (before ++ c ∷ after) ≡ after
drop-append_next [] c after = refl
drop-append_next (b ∷ before) c after = ground (arith, drop-append_next before c after)

module _ (key : Text) where
  -- The value behind the key and a colon.
  value-found :
      (json : Text) (m : Member) (ms : List Member) (i : ℕ)
      → find (needle key) json ≡ some i
      → drop (i + length (needle key)) json ≡ behind_key m ms
      → Lacks b'"' m.value
      → json_str_field json key ≡ ok m.value
  unfolding json_str_field
  value-found json m ms i e f plain =
      rw
        (
          e,
          f,
          find_byte b':' (spaces m.before_colon)
              (spaces m.gap ++ quoted m.value (behind_value m ms))
              (spaces-Lacks b':' m.before_colon (omega arith)),
          drop-append_next (spaces m.before_colon) b':'
              (spaces m.gap ++ quoted m.value (behind_value m ms)),
          trim_start-spaces m.gap (quoted m.value (behind_value m ms)) (omega arith),
        )
        (unfold starts_with in
          rw (find_byte b'"' m.value (behind_value m ms) plain)
            (ap ok (take-append_self m.value _)))

  nothing-found : (json : Text) → find (needle key) json ≡ none → json_str_field json key ≡ nothing
  unfolding json_str_field
  nothing-found json e = rw e

  key-behind :
      (json : Text) (m : Member) (ms : List Member) (place : Option ℕ)
      → Lacks b'"' m.value
      → find (needle key) json ≡ place
      → behind_index (needle key) json place ≡ some (behind_key m ms)
      → json_str_field json key ≡ ok m.value
  key-behind json m ms none plain e f = cc
  key-behind json m ms (some i) plain e f = value-found json m ms i e (cc) plain

  -- From what is behind the key to what is found.
  field-behind :
      (json : Text) (ms : List Member) (place : Option ℕ)
      → All (IsMember key) ms
      → find (needle key) json ≡ place
      → behind_index (needle key) json place ≡ after_key key ms
      → json_str_field json key ≡ lookup key ms
  field-behind json [] none all e f = nothing-found json e
  field-behind json [] (some i) all e f = cc
  field-behind json (m ∷ ms) place all e f = elim (Bool-cases (bytes_eq m.key key)) [
    | inl same ↦ rw same (key-behind json m ms place all.0.value_plain e (f ∙ rw same))
    | inr differs ↦ rw differs (field-behind json ms place all.1 e (f ∙ rw differs))
  ]

-- In a flat object of strings, a field is read as the value of the first member with its key, and as
-- `None` if there is none, with any number of spaces in front of and behind every key and every value.
-- Strings hold no quotation mark, the key starts with a small letter and holds no quotation mark, and
-- no value is spelled like the key.
pub json_str_field-object_text :
    (key : Text) (m : Member) (ms : List Member)
    → IsKey key
    → All (IsMember key) (m ∷ ms)
    → json_str_field (object_text m ms) key ≡ lookup key (m ∷ ms)
json_str_field-object_text key m ms valid all =
    let json = object_text m ms in
    field-behind key json (m ∷ ms) (find (needle key) json) all refl
      (behind-members key valid b'{' (m ∷ ms) (omega arith) all)
