-- ===== src/Http/Proto/Response/RoundTrip.antt =====
-- `decode_http_response` of wasm/http-bridge/src/lib.rs reads back the response that a server sends.
use grpcgi.Base.{ℕ, ◌^◌, ◌<◌, arith, ◌≡◌, sym, ap, ◌∙◌, true, false, List, [], ◌∷◌, ◌++◌}
use grpcgi.Base.{length, append_assoc, append-nil, All, map, ◌==◌, ok}
use grpcgi.Base.Machine.{Bytes, IsSlice, u32}
use grpcgi.Base.Utf8.{is_utf8, from_utf8_lossy-utf8}
use grpcgi.Wire.Fields.{varint_field, len_field, IsField, message_bytes}
use grpcgi.Http.Proto.{Header, HttpResponse, empty_response, decode_http_response}
use grpcgi.Http.Proto.Response.{ResponseField, field_of, add_header, apply_response}
use grpcgi.Http.Proto.Response.{
  apply_responses, IsResponseField, decode_http_response-message_bytes,
}
use grpcgi.Http.Proto.Response
use grpcgi.Http.Proto.Request.{header_fields, FitsSlice}

abbrev header_entries : List Header → List ResponseField
header_entries [] = []
header_entries (h ∷ hs) = Response.header_field (header_fields h) ∷ header_entries hs

-- The fields of a response: its status, its headers and its body.
abbrev response_entries : HttpResponse → List ResponseField
response_entries r =
    Response.plain_field (varint_field 1 r.status)
    ∷ (header_entries r.headers ++ Response.plain_field (len_field 3 r.body) ∷ [])

abbrev pub response_bytes : HttpResponse → Bytes
response_bytes r = message_bytes (map field_of (response_entries r))

-- A header whose key is not empty, in UTF-8, that fits a slice.
abbrev pub IsTextHeader : Header → Type 0
IsTextHeader h = FitsSlice h × (0 < length h.0) × (is_utf8 h.0 ≡ true) × (is_utf8 h.1 ≡ true)

header-kept :
    (h : Header) (r : HttpResponse)
    → IsTextHeader h
    → apply_response (Response.header_field (header_fields h)) r
      ≡ record r { headers = r.headers ++ (h ∷ []) }
header-kept h r (fits, key, key_text, value_text) =
    let some_key : (length h.0 == 0) ≡ false = ground arith in
    rw (from_utf8_lossy-utf8 h.0 key_text, from_utf8_lossy-utf8 h.1 value_text, some_key)

headers-kept :
    (hs : List Header) (r : HttpResponse) (later : List ResponseField)
    → All IsTextHeader hs
    → apply_responses (header_entries hs ++ later) r
      ≡ apply_responses later (record r { headers = r.headers ++ hs })
headers-kept [] r later all =
    ap (λ (l : List Header). apply_responses later (record r { headers = l }))
      (sym (append-nil r.headers))
headers-kept (h ∷ hs) r later all =
    ap (apply_responses (header_entries hs ++ later)) (header-kept h r all.0)
    ∙ (headers-kept hs (record r { headers = r.headers ++ (h ∷ []) }) later all.1
        ∙ ap (λ (l : List Header). apply_responses later (record r { headers = l }))
            (append_assoc r.headers (h ∷ []) hs))

len-IsField : (n : ℕ) (c : Bytes) → n < 2 ^ 29 → IsSlice c → IsField (len_field n c)
len-IsField n c small fits = record { number_lt = small; fits = fits }

headers-IsResponseField :
    (hs : List Header) (later : List ResponseField)
    → All IsTextHeader hs
    → All IsResponseField later
    → All IsResponseField (header_entries hs ++ later)
headers-IsResponseField [] later all valid = valid
headers-IsResponseField (h ∷ hs) later all valid =
    let (key, value, both) = all.0.0 in
    (
      (
        len-IsField 2 _ (omega arith) both,
        (len-IsField 1 h.0 (omega arith) key, (len-IsField 2 h.1 (omega arith) value, tt)),
      ),
      headers-IsResponseField hs later all.1 valid,
    )

-- A response with a 32-bit status and headers with keys, in UTF-8, is decoded to itself.
pub decode_http_response-response_bytes :
    (r : HttpResponse)
    → r.status < 2 ^ 32
    → All IsTextHeader r.headers
    → IsSlice r.body
    → IsSlice (response_bytes r)
    → decode_http_response (response_bytes r) ≡ ok r
decode_http_response-response_bytes r status texts body small =
    let exact : u32 r.status ≡ r.status = omega arith in
    let last : List ResponseField = Response.plain_field (len_field 3 r.body) ∷ [] in
    let valid : All IsResponseField (response_entries r) = (
      (record { number_lt = omega arith; fits = omega arith }, λ e. omega (arith, e.1)),
      headers-IsResponseField r.headers last texts
          ((len-IsField 3 r.body (omega arith) body, λ e. omega (arith, e.0)), tt),
    ) in
    decode_http_response-message_bytes (response_entries r) valid small
    ∙ ap ok (
        headers-kept r.headers (record empty_response { status = u32 r.status }) last texts
        ∙ ap (λ (n : ℕ). record r { status = n }) exact)
