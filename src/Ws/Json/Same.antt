-- ===== src/Ws/Json/Same.antt =====
-- `extract_json_string` of wasm/src/lib.rs and `json_str_field` of wasm/http-bridge/src/lib.rs.
use grpcgi.Base.{ℕ, ◌≡◌, refl, Option, none, some, Outcome, ok, nothing}
use grpcgi.Base.Text.{Text, find}
use grpcgi.Http.Json.{found, json_str_field}
use grpcgi.Ws.Json.{find_or_none, extract_json_string}

find_or_none-found : (needle text : Text) → find_or_none needle text ≡ found (find needle text)
find_or_none-found needle text = by_place (find needle text)
  where
    by_place :
        (o : Option ℕ) → ◌≡◌ {A = Outcome ℕ} (elim o [ none ↦ nothing | some i ↦ ok i ]) (found o)
    by_place none = refl
    by_place (some i) = refl

-- The two filters read a field of their configuration in the same way, whatever the text and the
-- key.
pub extract_json_string_same :
    (json key : Text) → extract_json_string json key ≡ json_str_field json key
unfolding extract_json_string json_str_field
extract_json_string_same json key = simp find_or_none-found refl
