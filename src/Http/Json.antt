-- ===== src/Http/Json.antt =====
-- `json_str_field` of wasm/http-bridge/src/lib.rs.
pub mod Flat
use grpcgi.Base.{ℕ, ◌+◌, [], ◌∷◌, ◌++◌, length, take, drop, if◌then◌else◌}
use grpcgi.Base.{Option, none, some, Outcome, ok, nothing, ◌>>=◌}
use grpcgi.Base.Text.{Text, ascii, find, starts_with, trim_start}

-- `find(…)?`
abbrev pub found : Option ℕ → Outcome ℕ
found none = nothing
found (some i) = ok i

abbrev pub quotation_mark : Text
quotation_mark = b'"' ∷ []

unfoldable pub json_str_field : Text → Text → Outcome Text
json_str_field json key = do
  let needle = quotation_mark ++ (key ++ quotation_mark)
  pos ← found (find needle json)
  let rest = drop (pos + length needle) json
  colon ← found (find (ascii ":") rest)
  let rest' = trim_start (drop (colon + 1) rest)
  if starts_with quotation_mark rest'
      then (do
        let inner = drop 1 rest'
        end ← found (find quotation_mark inner)
        ok (take end inner))
      else nothing
