-- ===== src/Http/Filter/Actions.antt =====
-- What the filter of wasm/http-bridge/src/lib.rs answers to Envoy in the course of a request.
use grpcgi.Base.{ℕ, ◌≡◌, false, List, [], ◌∷◌, Option, some}
use grpcgi.Base.Host.{Action, continue}
use grpcgi.Base.Machine.{Bytes}
use grpcgi.Http.Proto.{Header}
use grpcgi.Http.Filter.{HttpBridgeFilter, on_http_request_headers, on_http_request_body}

-- What the filter answers to the headers of a request with a body, and to chunks of the body that do
-- not end it.
unfoldable pub chunk_actions : HttpBridgeFilter → List Bytes → Option ℕ → List Action
chunk_actions s [] answer = []
chunk_actions s (c ∷ cs) answer =
    let now = on_http_request_body s (some c) false answer in now.2 ∷ chunk_actions now.0 cs answer

unfoldable pub request_actions :
    HttpBridgeFilter → List Header → List Bytes → Option ℕ → List Action
request_actions s headers chunks answer =
    let first = on_http_request_headers s headers false answer in
    first.2 ∷ chunk_actions first.0 chunks answer

abbrev pub Continues : Action → Type 0
Continues action = action ≡ continue
