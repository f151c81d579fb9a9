-- ===== src/Http/Proto/Response.antt =====
-- `decode_http_response` of wasm/http-bridge/src/lib.rs on well-formed messages.
pub mod RoundTrip
use grpcgi.Base.{ℕ, ◌+◌, ◌^◌, ◌≤◌, ◌<◌, arith, ◌≡◌, refl, sym, ap, ◌∙◌, length-append}
use grpcgi.Base.{
  Bool, true, false, List, [], ◌∷◌, ◌++◌, length, append_assoc, All, ◌==◌, if◌then◌else◌,
}
use grpcgi.Base.{Outcome, ok, nothing, panic, stuck, ◌>>=◌, map, ◌≢◌}
use grpcgi.Base.Machine.{Bytes, IsSlice, u32}
use grpcgi.Base.Text.{Text}
use grpcgi.Base.Utf8.{from_utf8_lossy}
use grpcgi.Wire.Varint.{varint}
use grpcgi.Wire.Fields.{Field, varint_field, fixed64_field, len_field, fixed32_field, IsField}
use grpcgi.Wire.Fields.{message_bytes, field_number, wire_type}
use grpcgi.Http.Proto.{Header, Round, skip_arm, header_arm, keyed, decode_header, HttpResponse}
use grpcgi.Http.Proto.{push_decoded, response_arm, empty_response, decode_http_response}
use grpcgi.Http.Proto.Fields.{read_at-varint, field_range-len, content_slice, content_end}
use grpcgi.Http.Proto.Fields.{ReadsField, run_fields, loop-message_bytes}
use grpcgi.Http.Proto.HeaderMessage.{header_of_fields, decode_header-message_bytes}

-- A field of an `HttpResponse`: a `Header` message in field 2, or a field that is not one.
pub data ResponseField : Type 0 where
  header_field : List Field → ResponseField
  plain_field : Field → ResponseField

abbrev pub field_of : ResponseField → Field
field_of (header_field fs) = len_field 2 (message_bytes fs)
field_of (plain_field f) = f

-- A header is kept if its key is not empty.
abbrev pub add_header : Header → HttpResponse → HttpResponse
add_header h r = if length h.0 == 0 then r else record r { headers = r.headers ++ (h ∷ []) }

abbrev pub apply_plain : Field → HttpResponse → HttpResponse
apply_plain (varint_field n v) r = if n == 1 then record r { status = u32 v } else r
apply_plain (fixed64_field n c) r = r
apply_plain (len_field n c) r = if n == 3 then record r { body = r.body ++ c } else r
apply_plain (fixed32_field n c) r = r

-- What a field means: the last status counts, headers are collected, and bodies are joined.
abbrev pub apply_response : ResponseField → HttpResponse → HttpResponse
apply_response (header_field fs) r = add_header (header_of_fields fs) r
apply_response (plain_field f) r = apply_plain f r

abbrev pub apply_responses : List ResponseField → HttpResponse → HttpResponse
apply_responses [] r = r
apply_responses (f ∷ fs) r = apply_responses fs (apply_response f r)

abbrev NotHeader : Field → Type 0
NotHeader f = ¬ ((field_number f ≡ 2) × (wire_type f ≡ 2))

-- A field as protobuf allows it; what stands in field 2 is a message.
abbrev pub IsResponseField : ResponseField → Type 0
IsResponseField (header_field fs) = IsField (field_of (header_field fs)) × All IsField fs
IsResponseField (plain_field f) = IsField f × NotHeader f

abbrev pushed : Outcome Header → HttpResponse → HttpResponse
pushed nothing r = r
pushed panic r = r
pushed stuck r = r
pushed (ok h) r = record r { headers = r.headers ++ (h ∷ []) }

-- The field as the loop sees it, before its content is known to be a message.
abbrev apply_field : Field → HttpResponse → HttpResponse
apply_field (len_field n c) r =
    if n == 2 then pushed (decode_header c) r else apply_plain (len_field n c) r
apply_field (varint_field n v) r = apply_plain (varint_field n v) r
apply_field (fixed64_field n c) r = r
apply_field (fixed32_field n c) r = r

abbrev always : Field → Bool
always f = true

push-keyed : (h : Header) (r : HttpResponse) → push_decoded (keyed h) r ≡ ok (add_header h r)
unfolding push_decoded keyed
push-keyed h r = ground arith

pushed-keyed : (h : Header) (r : HttpResponse) → pushed (keyed h) r ≡ add_header h r
unfolding keyed
pushed-keyed h r = ground arith

header-reads :
    (fs : List Field)
    → IsResponseField (header_field fs)
    → ReadsField response_arm always apply_field (field_of (header_field fs))
unfolding response_arm
header-reads fs (valid, inner) before after r small =
    let c = message_bytes fs in
    let inside : IsSlice (before ++ (varint (length c) ++ (c ++ after))) =
      rw append_assoc at small in
    let decoded = decode_header-message_bytes fs inner valid.fits in
    rw
      (
        append_assoc (varint (length c)) c after,
        field_range-len before after c inside,
        content_slice before after c inside,
        decoded,
        push-keyed (header_of_fields fs) r,
        pushed-keyed (header_of_fields fs) r,
        content_end before after c inside,
      )
      refl

plain-reads :
    (f : Field) → IsResponseField (plain_field f) → ReadsField response_arm always apply_field f
unfolding response_arm skip_arm
plain-reads (varint_field n v) (valid, plain) before after r small =
    rw (read_at-varint before v after valid.fits) (ground arith)
plain-reads (fixed64_field n c) (valid, plain) before after r small = ground (arith, valid.fits)
plain-reads (len_field n c) (valid, plain) before after r small =
    let other : n ≢ 2 = λ e. plain (e, refl) in
    let inside : IsSlice (before ++ (varint (length c) ++ (c ++ after))) =
      rw append_assoc at small in
    rw
      (
        append_assoc (varint (length c)) c after,
        field_range-len before after c inside,
        content_slice before after c inside,
        content_end before after c inside,
      )
      (ground arith)
plain-reads (fixed32_field n c) (valid, plain) before after r small = ground (arith, valid.fits)

reads-All :
    (fs : List ResponseField)
    → All IsResponseField fs
    → All IsField (map field_of fs)
      × All (ReadsField response_arm always apply_field) (map field_of fs)
reads-All [] all = (tt, tt)
reads-All (header_field hs ∷ fs) all =
    let rest = reads-All fs all.1 in ((all.0.0, rest.0), (header-reads hs all.0, rest.1))
reads-All (plain_field f ∷ fs) all =
    let rest = reads-All fs all.1 in ((all.0.0, rest.0), (plain-reads f all.0, rest.1))

apply_field-apply_response :
    (f : ResponseField) (r : HttpResponse)
    → IsResponseField f
    → apply_field (field_of f) r ≡ apply_response f r
apply_field-apply_response (header_field hs) r (valid, inner) =
    rw (decode_header-message_bytes hs inner valid.fits) (pushed-keyed (header_of_fields hs) r)
apply_field-apply_response (plain_field (varint_field n v)) r valid = refl
apply_field-apply_response (plain_field (fixed64_field n c)) r valid = refl
apply_field-apply_response (plain_field (len_field n c)) r (valid, plain) =
    let other : n ≢ 2 = λ e. plain (e, refl) in ground arith
apply_field-apply_response (plain_field (fixed32_field n c)) r valid = refl

run-apply_responses :
    (fs : List ResponseField) (r : HttpResponse)
    → All IsResponseField fs
    → run_fields response_arm always apply_field (map field_of fs) r ≡ apply_responses fs r
run-apply_responses [] r all = refl
run-apply_responses (f ∷ fs) r all =
    rw (apply_field-apply_response f r all.0) (run-apply_responses fs (apply_response f r) all.1)

-- Every well-formed `HttpResponse` is decoded so: the last status counts (200 if there is none),
-- `Header` messages with a key are collected in order, bodies are joined, and all other fields of the
-- response are skipped. A `Header` message has the last key and the last `value` before its first
-- field of wire type 1 or 5, at which its decoding stops; its `raw_value` is not read.
pub decode_http_response-message_bytes :
    (fs : List ResponseField)
    → All IsResponseField fs
    → IsSlice (message_bytes (map field_of fs))
    → decode_http_response (message_bytes (map field_of fs))
      ≡ ok (apply_responses fs empty_response)
unfolding decode_http_response
decode_http_response-message_bytes fs all small =
    let (valid, reads) = reads-All fs all in
    loop-message_bytes response_arm always apply_field (map field_of fs) _ [] empty_response valid
      reads small (omega arith)
    ∙ ap ok (run-apply_responses fs empty_response all)
