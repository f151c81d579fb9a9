-- ===== src/Tests/HttpMachine.antt =====
-- A whole exchange of the HTTP filter, step by step.
use grpcgi.Base.{◌≡◌, arith, true, false, List, [], ◌∷◌, ◌++◌, some, ok}
use grpcgi.Base.{All}
use grpcgi.Base.Host.{pause}
use grpcgi.Base.Text.{ascii}
use grpcgi.Base.Utf8.{is_utf8, is_utf8_loop, chunk, lead, continues}
use grpcgi.Wire.Varint.{groups}
use grpcgi.Wire.Fields.{message_bytes}
use grpcgi.Http.Proto.Request.{request_fields}
use grpcgi.Http.Proto.Response.RoundTrip.{response_bytes}
use grpcgi.Http.Filter.{
  HttpBridgeFilter, Effect, dispatch_grpc_call, send_http_response, initial_meta,
}
use grpcgi.Http.Filter.{on_http_request_headers, on_http_request_body, on_grpc_call_response}
use grpcgi.Http.Filter.Request.{run_request}
use grpcgi.Http.Filter.Exchange.{exchange}
use grpcgi.Http.Filter.Actions.{Continues, request_actions}
use grpcgi.Http.Root.{default_root, create_http_context}
use grpcgi.Tests.HttpFilter.{
  host_header, posted, found_page, plain_run, host-FitsSlice, host-IsTextHeader,
}

abbrev new_filter : HttpBridgeFilter
new_filter = create_http_context default_root 3

exchange_example :
    let requested = run_request new_filter host_header (ascii "x=1" ∷ []) (ascii "&y=2") (some 5) in
    (requested.1
      ≡ dispatch_grpc_call default_root.cluster
          (ascii "grpcgi.v1.HttpBridge")
          (ascii "Handle")
          (initial_meta default_root.authority)
          (message_bytes (request_fields host_header posted))
          30
        ∷ [])
    × (requested.2 ≡ pause)
    × All Continues (request_actions new_filter host_header (ascii "x=1" ∷ []) (some 5))
    × (on_grpc_call_response requested.0 5 0 (some (response_bytes found_page))
        ≡ ok (send_http_response 200 host_header (ascii "ok") ∷ []))
unfolding groups is_utf8 is_utf8_loop chunk lead continues
exchange_example =
    exchange default_root 3 5 host_header (ascii "x=1" ∷ []) (ascii "&y=2") found_page plain_run
      host-FitsSlice (omega arith) (omega arith) host-IsTextHeader (omega arith) (omega arith)

-- The filter behind the headers, and behind the body.
abbrev headers_run : HttpBridgeFilter × List Effect
headers_run = let r = on_http_request_headers new_filter host_header false (some 5) in (r.0, r.1)

abbrev body_run : HttpBridgeFilter × List Effect
body_run = let r = on_http_request_body headers_run.0 (some posted) true (some 5) in (r.0, r.1)

abbrev all_calls : List Effect
all_calls = ([] ++ headers_run.1) ++ body_run.1

abbrev refusal : List Effect
refusal = send_http_response 502 [] (ascii "grpcgi: gRPC error") ∷ []
