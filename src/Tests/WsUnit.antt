-- ===== src/Tests/WsUnit.antt =====
-- The unit tests of wasm/src/lib.rs, run. Three of them expect a gRPC header in front of a `Frame`
-- message and fail.
use grpcgi.Base.{◌≡◌, refl, lt_wf, dec_lt, panic}
use grpcgi.Base.Text.{
  Text, bytes_eq, trim, trim_start, trim_end, trim_loop, strip_any, starts_with, find, is_ascii,
}
use grpcgi.Base.Utf8.{is_utf8, is_utf8_loop, chunk, lead, continues}
use grpcgi.Ws.Varint.{write_varint, write_varint_loop, read_varint, read_varint_loop}
use grpcgi.Ws.FrameProto.{
  encode_frame_proto, decode_frame_proto, decode_loop, decode_round, decode_arm, skip_field,
  field_end,
}
use grpcgi.Ws.FrameCodec.{
  encode_ws_frame, length_field, parse_ws_frame, payload_length, take_payload, unmask_payload,
  xor_key,
}
use grpcgi.Ws.Upgrade.{
  parse_http_request_headers, headers_of_lines, header_lines, header_of, split_crlf, split_space,
  request_line, next_part, to_lowercase,
}
use grpcgi.Ws.Json.{extract_json_string}
use grpcgi.Ws.Search.{find_subsequence, windows, position}
use grpcgi.Ws.UnitTests.{passed}
use grpcgi.Ws.UnitTests.Codec.{
  varint_roundtrip_small, varint_roundtrip_multibyte, varint_roundtrip_large,
  frame_proto_text_roundtrip, frame_proto_binary_roundtrip, frame_proto_empty_payload,
  frame_proto_grpc_header, frame_proto_known_encoding, frame_proto_known_encoding_binary,
  ws_frame_small_text_unmasked, ws_frame_126_boundary, ws_frame_roundtrip_masked,
  ws_frame_parse_incomplete_returns_none, ws_frame_parse_unmasked, ws_close_frame,
  ws_frame_empty_payload,
}
use grpcgi.Ws.UnitTests.Strings.{
  parse_request_headers_basic, parse_request_headers_multi_header, json_extract_present,
  json_extract_missing, json_extract_with_spaces, find_crlf_crlf, find_subsequence_not_present,
  find_subsequence_at_start,
}

varint_roundtrip_small_run : varint_roundtrip_small ≡ passed
unfolding varint_roundtrip_small write_varint write_varint_loop read_varint read_varint_loop
    bytes_eq lt_wf dec_lt
varint_roundtrip_small_run = refl

varint_roundtrip_multibyte_run : varint_roundtrip_multibyte ≡ passed
unfolding varint_roundtrip_multibyte write_varint write_varint_loop read_varint read_varint_loop
    bytes_eq lt_wf dec_lt
varint_roundtrip_multibyte_run = refl

varint_roundtrip_large_run : varint_roundtrip_large ≡ passed
unfolding varint_roundtrip_large write_varint write_varint_loop read_varint read_varint_loop
    bytes_eq lt_wf dec_lt
varint_roundtrip_large_run = refl

frame_proto_text_roundtrip_run : frame_proto_text_roundtrip ≡ passed
unfolding frame_proto_text_roundtrip encode_frame_proto decode_frame_proto decode_loop decode_round
    decode_arm skip_field field_end write_varint write_varint_loop read_varint read_varint_loop
    bytes_eq lt_wf dec_lt
frame_proto_text_roundtrip_run = refl

frame_proto_binary_roundtrip_run : frame_proto_binary_roundtrip ≡ passed
unfolding frame_proto_binary_roundtrip encode_frame_proto decode_frame_proto decode_loop
    decode_round decode_arm skip_field field_end write_varint write_varint_loop read_varint
    read_varint_loop bytes_eq lt_wf dec_lt
frame_proto_binary_roundtrip_run = refl

frame_proto_empty_payload_run : frame_proto_empty_payload ≡ passed
unfolding frame_proto_empty_payload encode_frame_proto decode_frame_proto decode_loop decode_round
    decode_arm skip_field field_end write_varint write_varint_loop read_varint read_varint_loop
    bytes_eq lt_wf dec_lt
frame_proto_empty_payload_run = refl

frame_proto_grpc_header_run : frame_proto_grpc_header ≡ panic
unfolding frame_proto_grpc_header encode_frame_proto decode_frame_proto decode_loop decode_round
    decode_arm skip_field field_end write_varint write_varint_loop read_varint read_varint_loop
    bytes_eq lt_wf dec_lt
frame_proto_grpc_header_run = refl

frame_proto_known_encoding_run : frame_proto_known_encoding ≡ panic
unfolding frame_proto_known_encoding encode_frame_proto decode_frame_proto decode_loop decode_round
    decode_arm skip_field field_end write_varint write_varint_loop read_varint read_varint_loop
    bytes_eq lt_wf dec_lt
frame_proto_known_encoding_run = refl

frame_proto_known_encoding_binary_run : frame_proto_known_encoding_binary ≡ panic
unfolding frame_proto_known_encoding_binary encode_frame_proto decode_frame_proto decode_loop
    decode_round decode_arm skip_field field_end write_varint write_varint_loop read_varint
    read_varint_loop bytes_eq lt_wf dec_lt
frame_proto_known_encoding_binary_run = refl

ws_frame_small_text_unmasked_run : ws_frame_small_text_unmasked ≡ passed
unfolding ws_frame_small_text_unmasked encode_ws_frame length_field parse_ws_frame payload_length
    take_payload unmask_payload xor_key bytes_eq
ws_frame_small_text_unmasked_run = refl

ws_frame_126_boundary_run : ws_frame_126_boundary ≡ passed
unfolding ws_frame_126_boundary encode_ws_frame length_field parse_ws_frame payload_length
    take_payload unmask_payload xor_key bytes_eq
ws_frame_126_boundary_run = refl

ws_frame_roundtrip_masked_run : ws_frame_roundtrip_masked ≡ passed
unfolding ws_frame_roundtrip_masked encode_ws_frame length_field parse_ws_frame payload_length
    take_payload unmask_payload xor_key bytes_eq
ws_frame_roundtrip_masked_run = refl

ws_frame_parse_incomplete_returns_none_run : ws_frame_parse_incomplete_returns_none ≡ passed
unfolding ws_frame_parse_incomplete_returns_none encode_ws_frame length_field parse_ws_frame
    payload_length take_payload unmask_payload xor_key bytes_eq
ws_frame_parse_incomplete_returns_none_run = refl

ws_frame_parse_unmasked_run : ws_frame_parse_unmasked ≡ passed
unfolding ws_frame_parse_unmasked encode_ws_frame length_field parse_ws_frame payload_length
    take_payload unmask_payload xor_key bytes_eq
ws_frame_parse_unmasked_run = refl

ws_close_frame_run : ws_close_frame ≡ passed
unfolding ws_close_frame encode_ws_frame length_field parse_ws_frame payload_length take_payload
    unmask_payload xor_key bytes_eq
ws_close_frame_run = refl

ws_frame_empty_payload_run : ws_frame_empty_payload ≡ passed
unfolding ws_frame_empty_payload encode_ws_frame length_field parse_ws_frame payload_length
    take_payload unmask_payload xor_key bytes_eq
ws_frame_empty_payload_run = refl

parse_request_headers_basic_run :
    (unicode_lowercase : Text → Text) → parse_request_headers_basic unicode_lowercase ≡ passed
unfolding parse_request_headers_basic parse_http_request_headers is_utf8 is_utf8_loop chunk lead
    continues headers_of_lines header_lines header_of split_crlf split_space request_line next_part
    to_lowercase trim trim_start trim_end trim_loop strip_any starts_with find is_ascii bytes_eq
parse_request_headers_basic_run unicode_lowercase = refl

parse_request_headers_multi_header_run :
    (unicode_lowercase : Text → Text)
    → parse_request_headers_multi_header unicode_lowercase ≡ passed
unfolding parse_request_headers_multi_header parse_http_request_headers is_utf8 is_utf8_loop chunk
    lead continues headers_of_lines header_lines header_of split_crlf split_space request_line
    next_part to_lowercase trim trim_start trim_end trim_loop strip_any starts_with find is_ascii
    bytes_eq
parse_request_headers_multi_header_run unicode_lowercase = refl

json_extract_present_run : json_extract_present ≡ passed
unfolding json_extract_present extract_json_string find starts_with trim_start trim_loop strip_any
    bytes_eq
json_extract_present_run = refl

json_extract_missing_run : json_extract_missing ≡ passed
unfolding json_extract_missing extract_json_string find starts_with trim_start trim_loop strip_any
    bytes_eq
json_extract_missing_run = refl

json_extract_with_spaces_run : json_extract_with_spaces ≡ passed
unfolding json_extract_with_spaces extract_json_string find starts_with trim_start trim_loop
    strip_any bytes_eq
json_extract_with_spaces_run = refl

find_crlf_crlf_run : find_crlf_crlf ≡ passed
unfolding find_crlf_crlf find_subsequence windows position bytes_eq
find_crlf_crlf_run = refl

find_subsequence_not_present_run : find_subsequence_not_present ≡ passed
unfolding find_subsequence_not_present find_subsequence windows position bytes_eq
find_subsequence_not_present_run = refl

find_subsequence_at_start_run : find_subsequence_at_start ≡ passed
unfolding find_subsequence_at_start find_subsequence windows position bytes_eq
find_subsequence_at_start_run = refl
