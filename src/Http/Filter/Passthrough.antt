-- ===== src/Http/Filter/Passthrough.antt =====
-- Requests for a WebSocket, which the filter of wasm/http-bridge/src/lib.rs lets through.
use grpcgi.Base.{ℕ, ◌≡◌, refl, true, false}
use grpcgi.Base.{List, [], ◌∷◌, All, Option}
use grpcgi.Base.Host.{continue}
use grpcgi.Base.Machine.{Bytes}
use grpcgi.Http.Proto.{Header}
use grpcgi.Http.Filter.{HttpBridgeFilter}
use grpcgi.Http.Filter.{asks_websocket}
use grpcgi.Http.Filter.{on_http_request_headers}
use grpcgi.Base.{refl}
use grpcgi.Http.Filter.Request.{deliver_chunks, run_request, body-passes}
use grpcgi.Http.Filter.Actions.{Continues, chunk_actions, request_actions}

deliver_chunks-passthrough :
    (cs : List Bytes) (s : HttpBridgeFilter) (answer : Option ℕ)
    → s.passthrough ≡ true
    → deliver_chunks s cs answer ≡ (s, [])
unfolding deliver_chunks
deliver_chunks-passthrough [] s answer through = refl
deliver_chunks-passthrough (c ∷ cs) s answer through =
    rw (body-passes s c false answer through, deliver_chunks-passthrough cs s answer through)

chunk_actions-passthrough :
    (cs : List Bytes) (s : HttpBridgeFilter) (answer : Option ℕ)
    → s.passthrough ≡ true
    → All Continues (chunk_actions s cs answer)
unfolding chunk_actions
chunk_actions-passthrough [] s answer through = tt
chunk_actions-passthrough (c ∷ cs) s answer through =
    rw (body-passes s c false answer through) (refl, chunk_actions-passthrough cs s answer through)

-- A request that asks for a WebSocket is passed through: neither its headers nor any chunk behind
-- them, the last included, leads to a call, and all of them are answered by Continue.
pub run_request-passthrough :
    (s : HttpBridgeFilter) (headers : List Header) (chunks : List Bytes) (last : Bytes)
    (answer : Option ℕ)
    → asks_websocket headers ≡ true
    → (run_request s headers chunks last answer ≡ (record s { passthrough = true }, [], continue))
      × All Continues (request_actions s headers chunks answer)
unfolding run_request request_actions on_http_request_headers
run_request-passthrough s headers chunks last answer asks =
    let through : HttpBridgeFilter = record s { passthrough = true } in
    (
      rw (
        asks,
        deliver_chunks-passthrough chunks through answer refl,
        body-passes through last true answer refl,
      ),
      rw asks (refl, chunk_actions-passthrough chunks through answer refl),
    )
