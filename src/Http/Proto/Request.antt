-- ===== src/Http/Proto/Request.antt =====
-- `encode_http_request` of wasm/http-bridge/src/lib.rs writes the `HttpRequest` of
-- proto/grpcgi/v1/http.proto.
use grpcgi.Base.{ℕ, ◌+◌, ◌*◌, ◌^◌, ◌<◌, arith, ◌≡◌, refl, sym, ap, ◌∙◌, bit_or}
use grpcgi.Base.{
  List, [], ◌∷◌, ◌++◌, length, append_assoc, append-nil, All, ◌==◌, false, if◌then◌else◌,
}
use grpcgi.Base.Bits.{bit_or_low}
use grpcgi.Base.Machine.{Bytes, IsSlice, u64}
use grpcgi.Wire.Varint.{varint}
use grpcgi.Wire.Fields.{Field, len_field, message_bytes, field_bytes}
use grpcgi.Http.Varint.Laws.{write_varint-varint}
use grpcgi.Http.Proto.{Header, push_len_field, push_header_field, push_headers, encode_http_request}

-- A `Header` message. Unlike the encoders that protoc generates, this one writes empty strings.
abbrev pub header_fields : Header → List Field
header_fields h = len_field 1 h.0 ∷ len_field 2 h.1 ∷ []

abbrev pub header_field : Header → Field
header_field h = len_field 1 (message_bytes (header_fields h))

abbrev pub body_fields : Bytes → List Field
body_fields [] = []
body_fields (b ∷ bs) = len_field 2 (b ∷ bs) ∷ []

-- The fields of an `HttpRequest`.
abbrev pub request_fields : List Header → Bytes → List Field
request_fields [] body = body_fields body
request_fields (h ∷ hs) body = header_field h ∷ request_fields hs body

-- A header whose parts and whose message fit a slice.
abbrev pub FitsSlice : Header → Type 0
FitsSlice h = IsSlice h.0 × IsSlice h.1 × IsSlice (message_bytes (header_fields h))

push_len_field-field_bytes :
    (n : ℕ) (c buf : Bytes)
    → n < 2 ^ 29
    → IsSlice c
    → push_len_field n c buf ≡ buf ++ field_bytes (len_field n c)
unfolding push_len_field
push_len_field-field_bytes n c buf hn hc =
    let tag : bit_or (u64 (n * 8)) 2 ≡ n * 8 + 2 = ground (arith, bit_or_low 3 n 2) in
    let exact : u64 (length c) ≡ length c = omega arith in
    rw (
      tag,
      exact,
      write_varint-varint (n * 8 + 2) buf (omega arith),
      write_varint-varint (length c) (buf ++ varint (n * 8 + 2)) (omega arith),
      append_assoc,
      append_assoc,
    )

push_header_field-field_bytes :
    (h : Header) (out : Bytes)
    → FitsSlice h
    → push_header_field h out ≡ out ++ field_bytes (header_field h)
unfolding push_header_field
push_header_field-field_bytes (k, v) out (key, value, both) =
    let message : push_len_field 2 v (push_len_field 1 k [])
        ≡ message_bytes (header_fields (k, v)) =
      rw (push_len_field-field_bytes 1 k [] (omega arith) key) (
        push_len_field-field_bytes 2 v _ (omega arith) value
        ∙ ap (λ (l : Bytes). field_bytes (len_field 1 k) ++ l) (sym (append-nil _))) in
    rw message (push_len_field-field_bytes 1 _ out (omega arith) both)

push_headers-message_bytes :
    (headers : List Header) (out body : Bytes)
    → All FitsSlice headers
    → push_headers headers out ++ message_bytes (body_fields body)
      ≡ out ++ message_bytes (request_fields headers body)
unfolding push_headers
push_headers-message_bytes [] out body fits = refl
push_headers-message_bytes (h ∷ hs) out body fits =
    rw (push_header_field-field_bytes h out fits.0) (
      push_headers-message_bytes hs (out ++ field_bytes (header_field h)) body fits.1
      ∙ append_assoc out (field_bytes (header_field h)) (message_bytes (request_fields hs body)))

body_written :
    (out body : Bytes)
    → IsSlice body
    → (if length body == 0 then out else push_len_field 2 body out)
      ≡ out ++ message_bytes (body_fields body)
body_written out [] fits = sym (append-nil out)
body_written out (b ∷ bs) fits =
    let some_body : (length (b ∷ bs) == 0) ≡ false = ground arith in
    rw some_body (
      push_len_field-field_bytes 2 (b ∷ bs) out (omega arith) fits
      ∙ ap (λ (l : Bytes). out ++ l) (sym (append-nil _)))

-- `encode_http_request` writes, in the wire format of protobuf, one `Header` message for each
-- header, in order, and the body as field 2 unless it is empty.
pub encode_http_request-message_bytes :
    (headers : List Header) (body : Bytes)
    → All FitsSlice headers
    → IsSlice body
    → encode_http_request headers body ≡ message_bytes (request_fields headers body)
unfolding encode_http_request
encode_http_request-message_bytes headers body fits small =
    body_written (push_headers headers []) body small
    ∙ push_headers-message_bytes headers [] body fits
