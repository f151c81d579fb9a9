-- ===== src/Ws/UnitTests/Strings.antt =====
-- The unit tests of the request headers, the configuration strings and the search in
-- wasm/src/lib.rs.
use grpcgi.Base.{Bool, false, List, [], ◌∷◌, ◌==◌, ◌&&◌, ◌||◌, ◌>>=◌}
use grpcgi.Base.Text.{Text, ascii, bytes_eq}
use grpcgi.Ws.Upgrade.{Header, parse_http_request_headers}
use grpcgi.Ws.Json.{extract_json_string}
use grpcgi.Ws.Search.{find_subsequence}
use grpcgi.Ws.UnitTests.{UnitTest, passed, asserting, unwrap, is_none, is_some}

-- `headers.contains(…)`
abbrev pub contains : List Header → Header → Bool
contains [] header = false
contains (h ∷ hs) header = (bytes_eq h.0 header.0 && bytes_eq h.1 header.1) || contains hs header

module _ (unicode_lowercase : Text → Text) where
  unfoldable pub parse_request_headers_basic : UnitTest
  parse_request_headers_basic =
      let raw = ascii "GET /chat HTTP/1.1\r\nHost: example.com\r\nUpgrade: websocket\r\n\r\n" in
      let headers = parse_http_request_headers unicode_lowercase raw in
      asserting (contains headers (ascii ":method", ascii "GET")) (
        asserting (contains headers (ascii ":path", ascii "/chat")) (
          asserting (contains headers (ascii "host", ascii "example.com"))
            (asserting (contains headers (ascii "upgrade", ascii "websocket")) passed)))

  unfoldable pub parse_request_headers_multi_header : UnitTest
  parse_request_headers_multi_header =
      let raw =
        ascii
          "GET /ws HTTP/1.1\r\nSec-WebSocket-Key: dGhlIHNhbXBsZQ==\r\nConnection: Upgrade\r\n\r\n" in
      let headers = parse_http_request_headers unicode_lowercase raw in
      asserting (contains headers (ascii "sec-websocket-key", ascii "dGhlIHNhbXBsZQ=="))
        (asserting (contains headers (ascii "connection", ascii "Upgrade")) passed)

-- `assert_eq!(…, Some(expected.to_string()))`
abbrev pub asserting_some : Text → Text → Text → UnitTest → UnitTest
asserting_some json key expected rest = do
  value ← unwrap (extract_json_string json key)
  asserting (bytes_eq value expected) rest

unfoldable pub json_extract_present : UnitTest
json_extract_present =
    let json = ascii "{\"grpc_cluster\":\"my_cluster\",\"grpc_service\":\"svc\"}" in
    asserting_some json (ascii "grpc_cluster") (ascii "my_cluster")
      (asserting_some json (ascii "grpc_service") (ascii "svc") passed)

unfoldable pub json_extract_missing : UnitTest
json_extract_missing = do
  let json = ascii "{\"other\":\"value\"}"
  missing ← is_none (extract_json_string json (ascii "grpc_cluster"))
  asserting missing passed

unfoldable pub json_extract_with_spaces : UnitTest
json_extract_with_spaces =
    let json = ascii "{ \"grpc_cluster\" : \"c1\" , \"grpc_service\" : \"s1\" }" in
    asserting_some json (ascii "grpc_cluster") (ascii "c1") passed

unfoldable pub find_crlf_crlf : UnitTest
find_crlf_crlf = do
  let data' = ascii "GET / HTTP/1.1\r\nHost: x\r\n\r\n"
  there ← is_some (find_subsequence data' (ascii "\r\n\r\n"))
  asserting there passed

unfoldable pub find_subsequence_not_present : UnitTest
find_subsequence_not_present = do
  missing ← is_none (find_subsequence (ascii "hello world") (ascii "\r\n\r\n"))
  asserting missing passed

unfoldable pub find_subsequence_at_start : UnitTest
find_subsequence_at_start = do
  i ← unwrap (find_subsequence (ascii "\r\n\r\ndata") (ascii "\r\n\r\n"))
  asserting (i == 0) passed
