-- ===== src/Http/Filter/Exchange.antt =====
-- A request and its answer through the filter of wasm/http-bridge/src/lib.rs.
use grpcgi.Base.{ℕ, ◌^◌, ◌<◌, ◌≡◌, refl, false, List, [], ◌∷◌, ◌++◌, All, concat, some, ok}
use grpcgi.Base.Host.{pause}
use grpcgi.Base.Machine.{Bytes, IsSlice}
use grpcgi.Base.Text.{ascii}
use grpcgi.Wire.Fields.{message_bytes}
use grpcgi.Http.Proto.{Header, HttpResponse}
use grpcgi.Http.Proto.Request.{request_fields, FitsSlice}
use grpcgi.Http.Proto.Response.RoundTrip.{response_bytes, IsTextHeader}
use grpcgi.Http.Filter.{dispatch_grpc_call, send_http_response, initial_meta, asks_websocket}
use grpcgi.Http.Filter.{on_grpc_call_response}
use grpcgi.Http.Filter.Request.{run_request, run_request-dispatches, body-gathers}
use grpcgi.Http.Filter.Answer.{on_grpc_call_response-response_bytes}
use grpcgi.Http.Root.{HttpBridgeRoot, create_http_context}
use grpcgi.Base.{Option, true}
use grpcgi.Http.Filter.{HttpBridgeFilter, on_http_request_headers}
use grpcgi.Http.Filter.Actions.{Continues, chunk_actions, request_actions}

chunk_actions-Continues :
    (s : HttpBridgeFilter) (cs : List Bytes) (answer : Option ℕ)
    → s.passthrough ≡ false
    → s.body_pending ≡ true
    → All Continues (chunk_actions s cs answer)
unfolding chunk_actions
chunk_actions-Continues s [] answer open_ pending = tt
chunk_actions-Continues s (c ∷ cs) answer open_ pending =
    rw (body-gathers s c answer open_ pending) (
      refl,
      chunk_actions-Continues (record s { req_body = s.req_body ++ c }) cs answer open_ pending,
    )

request_actions-Continues :
    (s : HttpBridgeFilter) (headers : List Header) (cs : List Bytes) (answer : Option ℕ)
    → s.passthrough ≡ false
    → asks_websocket headers ≡ false
    → All Continues (request_actions s headers cs answer)
unfolding request_actions on_http_request_headers
request_actions-Continues s headers cs answer open_ plain = rw plain (
  refl,
  chunk_actions-Continues (record s { req_headers = headers; body_pending = true }) cs answer open_
      refl,
)

-- A whole exchange. A request with a body, in any chunks, that does not ask for a WebSocket is sent
-- to the configured cluster in one call, and the server's answer to that call, with its status, its
-- headers and its body, is sent to the client as it is. Of the request, only the last chunk is held
-- back: to the headers and to all chunks before it the filter answers Continue. Headers and bodies
-- fit slices, and the answer's headers are UTF-8 with keys that are not empty.
pub exchange :
    (root : HttpBridgeRoot) (context_id token : ℕ) (headers : List Header) (chunks : List Bytes)
    (last : Bytes) (r : HttpResponse)
    → asks_websocket headers ≡ false
    → All FitsSlice headers
    → IsSlice (concat chunks ++ last)
    → r.status < 2 ^ 32
    → All IsTextHeader r.headers
    → IsSlice r.body
    → IsSlice (response_bytes r)
    → let s = create_http_context root context_id in
      let requested = run_request s headers chunks last (some token) in
      (requested.1
        ≡ dispatch_grpc_call root.cluster
            (ascii "grpcgi.v1.HttpBridge")
            (ascii "Handle")
            (initial_meta root.authority)
            (message_bytes (request_fields headers (concat chunks ++ last)))
            30
          ∷ [])
      × (requested.2 ≡ pause)
      × All Continues (request_actions s headers chunks (some token))
      × (on_grpc_call_response requested.0 token 0 (some (response_bytes r))
          ≡ ok (send_http_response r.status r.headers r.body ∷ []))
unfolding create_http_context
exchange root context_id token headers chunks last r plain fits small status texts body whole =
    let s = create_http_context root context_id in
    let sent =
      run_request-dispatches s headers chunks last (some token) refl refl plain fits small in
    rw sent (
      refl,
      refl,
      request_actions-Continues s headers chunks (some token) refl plain,
      on_grpc_call_response-response_bytes _ token r refl status texts body whole,
    )
