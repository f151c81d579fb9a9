-- ===== src/Ws/Json.antt =====
-- `extract_json_string` of wasm/src/lib.rs.
pub mod Same
use grpcgi.Base.{ℕ, ◌+◌, [], ◌∷◌, ◌++◌, length, take, drop, if◌then◌else◌}
use grpcgi.Base.{none, some, Outcome, ok, nothing, ◌>>=◌}
use grpcgi.Base.Text.{Text, ascii, find, starts_with, trim_start}

-- `find(…)?`
abbrev pub find_or_none : Text → Text → Outcome ℕ
find_or_none needle text = elim (find needle text) [ none ↦ nothing | some i ↦ ok i ]

abbrev pub quote : Text
quote = b'"' ∷ []

unfoldable pub extract_json_string : Text → Text → Outcome Text
extract_json_string json key = do
  let needle = quote ++ (key ++ quote)
  key_pos ← find_or_none needle json
  let after_key = drop (key_pos + length needle) json
  colon_pos ← find_or_none (ascii ":") after_key
  let after_colon = trim_start (drop (colon_pos + 1) after_key)
  if starts_with quote after_colon
      then (do
        let value_start = drop 1 after_colon
        end ← find_or_none quote value_start
        ok (take end value_start))
      else nothing
