-- ===== src/Http/Proto/HeaderMessage.antt =====
-- `decode_header` of wasm/http-bridge/src/lib.rs on well-formed messages.
use grpcgi.Base.{arith, ◌≡◌}
use grpcgi.Base.{Bool, true, false, List, [], ◌++◌, length, append_assoc, All, ◌==◌, if◌then◌else◌}
use grpcgi.Base.{All-map}
use grpcgi.Base.Machine.{IsSlice}
use grpcgi.Base.Utf8.{from_utf8_lossy}
use grpcgi.Wire.Varint.{varint}
use grpcgi.Wire.Fields.{Field, varint_field, fixed64_field, len_field, fixed32_field, IsField}
use grpcgi.Wire.Fields.{message_bytes}
use grpcgi.Http.Proto.{Header, skip_arm, header_arm, keyed, decode_header}
use grpcgi.Http.Proto.Fields.{read_at-varint, field_range-len, content_slice, content_end}
use grpcgi.Http.Proto.Fields.{ReadsField, run_fields, loop-message_bytes}

-- `decode_header` stops at a field of wire type 1 or 5.
abbrev pub header_goes_on : Field → Bool
header_goes_on (varint_field n v) = true
header_goes_on (fixed64_field n c) = false
header_goes_on (len_field n c) = true
header_goes_on (fixed32_field n c) = false

-- What a field means for a `Header`; text that is not UTF-8 is repaired.
abbrev pub apply_header : Field → Header → Header
apply_header (varint_field n v) h = h
apply_header (fixed64_field n c) h = h
apply_header (len_field n c) (key, val) =
    if n == 1
    then (from_utf8_lossy c, val)
    else if n == 2
    then (key, from_utf8_lossy c)
    else (key, val)
apply_header (fixed32_field n c) h = h

abbrev pub header_of_fields : List Field → Header
header_of_fields fs = run_fields header_arm header_goes_on apply_header fs ([], [])

header_arm-content : (f : Field) → IsField f → ReadsField header_arm header_goes_on apply_header f
unfolding header_arm skip_arm
header_arm-content (varint_field n v) valid before after (key, val) small =
    rw (read_at-varint before v after valid.fits) (ground arith)
header_arm-content (fixed64_field n c) valid before after (key, val) small = ground arith
header_arm-content (len_field n c) valid before after (key, val) small =
    let inside : IsSlice (before ++ (varint (length c) ++ (c ++ after))) =
      rw append_assoc at small in
    rw
      (
        append_assoc (varint (length c)) c after,
        field_range-len before after c inside,
        content_slice before after c inside,
        content_end before after c inside,
      )
      (ground arith)
header_arm-content (fixed32_field n c) valid before after (key, val) small = ground arith

-- A `Header` message is decoded to the last key and the last value before the first field of wire
-- type 1 or 5, where the decoding stops and what follows is lost, and to `None` if the key is empty.
-- `raw_value` is passed over like an unknown field.
pub decode_header-message_bytes :
    (fs : List Field)
    → All IsField fs
    → IsSlice (message_bytes fs)
    → decode_header (message_bytes fs) ≡ keyed (header_of_fields fs)
unfolding decode_header
decode_header-message_bytes fs valid small = rw (
    loop-message_bytes header_arm header_goes_on apply_header fs (length (message_bytes fs)) []
      ([], []) valid (All-map header_arm-content fs valid) small (omega arith))
