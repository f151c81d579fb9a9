-- ===== src/Tests/HttpFilter.antt =====
-- The codec and the filter of wasm/http-bridge/src/lib.rs.
use grpcgi.Base.{◌≡◌, refl, arith, true, false, List, [], ◌∷◌, ok, none, some, map, All}
use grpcgi.Base.Host.{continue}
use grpcgi.Base.Machine.{Bytes}
use grpcgi.Base.Text.{ascii, eq_ignore_ascii_case, bytes_eq}
use grpcgi.Base.Utf8.{is_utf8, is_utf8_loop, chunk, lead, continues}
use grpcgi.Wire.Varint.{groups}
use grpcgi.Wire.Fields.{varint_field, len_field, fixed64_field, message_bytes}
use grpcgi.Http.Proto.{
  Header, HttpResponse, encode_http_request, decode_http_response, decode_header, keyed,
}
use grpcgi.Http.Proto.Request.{request_fields, FitsSlice, encode_http_request-message_bytes}
use grpcgi.Base.{◌+◌, length, stuck}
use grpcgi.Wire.Varint.{varint}
use grpcgi.Wire.Fields.{tag_of}
use grpcgi.Http.Proto.{fields_loop, response_arm, empty_response}
use grpcgi.Http.Proto.Wrap.{wrapped_field, decode_http_response_hangs}
use grpcgi.Http.Proto.Response.{ResponseField, plain_field, field_of}
use grpcgi.Http.Proto.HeaderMessage.{header_of_fields, decode_header-message_bytes}
use grpcgi.Http.Proto.Response.{decode_http_response-message_bytes}
use grpcgi.Http.Proto.Response.RoundTrip.{IsTextHeader}
use grpcgi.Http.Filter.{HttpBridgeFilter, send_http_response, asks_websocket, is_websocket}
use grpcgi.Http.Filter.{on_http_request_headers, on_grpc_call_response}
use grpcgi.Http.Filter.Request.{run_request, deliver_chunks, the_call, headers-dispatch}
use grpcgi.Http.Filter.Request.{behind_call, deliver_chunks-no_call, run_request-dispatches}
use grpcgi.Http.Filter.Passthrough.{run_request-passthrough}
use grpcgi.Http.Filter.Actions.{Continues, request_actions}
use grpcgi.Http.Root.{default_root, create_http_context}

abbrev pub host_header : List Header
host_header = (ascii "host", ascii "a.b") ∷ []

abbrev websocket_header : List Header
websocket_header = (ascii "Upgrade", ascii "WebSocket") ∷ []

abbrev pub posted : Bytes
posted = ascii "x=1&y=2"

-- The filter of a new request.
abbrev fresh_filter : HttpBridgeFilter
fresh_filter = record {
  context_id = 3;
  cluster = ascii "grpcgi";
  authority = [];
  call_token = none;
  req_headers = [];
  req_body = [];
  passthrough = false;
  body_pending = false;
}

fresh_run : create_http_context default_root 3 ≡ fresh_filter
unfolding create_http_context
fresh_run = refl

-- The filter after a call with token 5.
abbrev calling_filter : HttpBridgeFilter
calling_filter = record fresh_filter { call_token = some 5 }

pub plain_run : asks_websocket host_header ≡ false
unfolding asks_websocket is_websocket eq_ignore_ascii_case bytes_eq
plain_run = refl

websocket_run : asks_websocket websocket_header ≡ true
unfolding asks_websocket is_websocket eq_ignore_ascii_case bytes_eq
websocket_run = refl

pub host-FitsSlice : All FitsSlice host_header
unfolding groups
host-FitsSlice = ((omega arith, omega arith, omega arith), tt)

pub host-IsTextHeader : All IsTextHeader host_header
unfolding groups is_utf8 is_utf8_loop chunk lead continues
host-IsTextHeader = (((omega arith, omega arith, omega arith), omega arith, refl, refl), tt)

encode_http_request-message_bytes_example :
    encode_http_request host_header posted ≡ message_bytes (request_fields host_header posted)
unfolding groups
encode_http_request-message_bytes_example =
    encode_http_request-message_bytes host_header posted host-FitsSlice (omega arith)

decode_header-message_bytes_example :
    decode_header (
      message_bytes (
        len_field 1 (ascii "k")
        ∷ fixed64_field 4 (ascii "12345678")
        ∷ len_field 2 (ascii "v")
        ∷ []))
    ≡ keyed (
        header_of_fields (
          len_field 1 (ascii "k")
          ∷ fixed64_field 4 (ascii "12345678")
          ∷ len_field 2 (ascii "v")
          ∷ []))
unfolding groups
decode_header-message_bytes_example =
    decode_header-message_bytes
      (len_field 1 (ascii "k") ∷ fixed64_field 4 (ascii "12345678") ∷ len_field 2 (ascii "v") ∷ [])
      (
        record { number_lt = omega arith; fits = omega arith },
        (
          record { number_lt = omega arith; fits = refl },
          (record { number_lt = omega arith; fits = omega arith }, tt),
        ),
      )
      (omega arith)

-- A status, two bodies and a field that is not known.
abbrev parts : List ResponseField
parts =
    plain_field (varint_field 1 404)
    ∷ plain_field (len_field 3 (ascii "not "))
    ∷ plain_field (varint_field 9 1)
    ∷ plain_field (len_field 3 (ascii "found"))
    ∷ []

decode_http_response-message_bytes_example :
    decode_http_response (message_bytes (map field_of parts))
    ≡ ok (record { status = 404; headers = []; body = ascii "not found" })
unfolding groups
decode_http_response-message_bytes_example =
    decode_http_response-message_bytes parts
      (
        (record { number_lt = omega arith; fits = omega arith }, λ e. omega (arith, e.0)),
        (
          (record { number_lt = omega arith; fits = omega arith }, λ e. omega (arith, e.0)),
          (
            (record { number_lt = omega arith; fits = omega arith }, λ e. omega (arith, e.0)),
            ((record { number_lt = omega arith; fits = omega arith }, λ e. omega (arith, e.0)), tt),
          ),
        ),
      )
      (omega arith)

abbrev pub found_page : HttpResponse
found_page = record { status = 200; headers = host_header; body = ascii "ok" }

run_request-dispatches_example :
    run_request fresh_filter host_header (ascii "x=1" ∷ []) (ascii "&y=2") none ≡ (
      behind_call none (record fresh_filter {
        req_headers = host_header;
        req_body = posted;
        body_pending = false;
      }),
      the_call fresh_filter (message_bytes (request_fields host_header posted)) ∷ [],
      continue,
    )
unfolding groups
run_request-dispatches_example =
    run_request-dispatches fresh_filter host_header (ascii "x=1" ∷ []) (ascii "&y=2") none refl refl
      plain_run host-FitsSlice (omega arith)

headers-dispatch_example : on_http_request_headers fresh_filter host_header true none ≡ (
  behind_call none (record fresh_filter { req_headers = host_header }),
  the_call fresh_filter (message_bytes (request_fields host_header [])) ∷ [],
  continue,
)
unfolding groups
headers-dispatch_example =
    headers-dispatch fresh_filter host_header none refl refl plain_run host-FitsSlice

run_request-passthrough_example :
    (run_request fresh_filter websocket_header (ascii "a" ∷ []) (ascii "b") (some 5)
      ≡ (record fresh_filter { passthrough = true }, [], continue))
    × All Continues (request_actions fresh_filter websocket_header (ascii "a" ∷ []) (some 5))
run_request-passthrough_example =
    run_request-passthrough fresh_filter websocket_header (ascii "a" ∷ []) (ascii "b") (some 5)
      websocket_run

deliver_chunks-no_call_example :
    (deliver_chunks
      (on_http_request_headers fresh_filter host_header false (some 5)).0
      (ascii "x=1" ∷ ascii "&y=2" ∷ [])
      (some 5)).1
    ≡ []
deliver_chunks-no_call_example =
    deliver_chunks-no_call fresh_filter host_header (ascii "x=1" ∷ ascii "&y=2" ∷ []) (some 5) refl
      plain_run

refused_run :
    on_grpc_call_response calling_filter 5 13 none
    ≡ ok (send_http_response 502 [] (ascii "grpcgi: gRPC error") ∷ [])
unfolding on_grpc_call_response
refused_run = refl

hanging_header : length (varint (tag_of 4 2)) + length (varint 4294967290) ≡ 6
unfolding groups
hanging_header = refl

decode_http_response_hangs_example :
    fields_loop response_arm 1000 (wrapped_field 4 4294967290 []) 0 empty_response ≡ stuck
decode_http_response_hangs_example =
    decode_http_response_hangs 4 4294967290 1000 [] (omega arith) (omega arith)
      (omega (arith, hanging_header))
