-- ===== src/Http/Filter.antt =====
-- The per-request filter `HttpBridgeFilter` of wasm/http-bridge/src/lib.rs. What Envoy answers to a
-- call that reads is an argument of the handler, and so is the answer of `dispatch_grpc_call`: the
-- token of the call, or an error. Each call that writes is an `Effect`, in the order of the calls.
pub mod Request
pub mod Answer
pub mod Actions
pub mod Passthrough
pub mod Exchange
pub mod Machine
use grpcgi.Base.{
  ℕ, Bool, true, false, List, [], ◌∷◌, ◌++◌, length, ◌&&◌, ◌||◌, ◌==◌, not, if◌then◌else◌,
}
use grpcgi.Base.{Option, none, some, Outcome, ok, nothing, panic, stuck}
use grpcgi.Base.Host.{Action, continue, pause}
use grpcgi.Base.Machine.{Bytes}
use grpcgi.Base.Text.{Text, ascii, eq_ignore_ascii_case}
use grpcgi.Http.Proto.{Header, HttpResponse, encode_http_request, decode_http_response}

pub record HttpBridgeFilter : Type 0 where
  pub context_id : ℕ
  pub cluster : Text
  pub authority : Text
  pub call_token : Option ℕ
  pub req_headers : List Header
  pub req_body : Bytes
  pub passthrough : Bool
  pub body_pending : Bool

-- `dispatch_grpc_call` with its cluster, service, method, initial metadata, message and time limit
-- in seconds; `send_http_response` with its status, headers and body.
pub data Effect : Type 0 where
  dispatch_grpc_call : Text → Text → Text → List Header → Bytes → ℕ → Effect
  send_http_response : ℕ → List Header → Bytes → Effect

unfoldable pub initial_meta : Text → List Header
initial_meta authority = if length authority == 0 then [] else (ascii ":authority", authority) ∷ []

-- The `match` on the answer of `dispatch_grpc_call`.
unfoldable pub dispatched : Option ℕ → HttpBridgeFilter → HttpBridgeFilter
dispatched none s = record s { passthrough = true }
dispatched (some token) s = record s { call_token = some token }

unfoldable pub dispatch_handle : Option ℕ → HttpBridgeFilter → HttpBridgeFilter × List Effect
dispatch_handle answer s =
    let msg = encode_http_request s.req_headers s.req_body in
    (
      dispatched answer s,
      dispatch_grpc_call s.cluster (ascii "grpcgi.v1.HttpBridge") (ascii "Handle")
            (initial_meta s.authority) msg 30
          ∷ [],
    )

-- The call, and `if self.passthrough { Action::Continue } else { Action::Pause }` behind it.
unfoldable pub dispatch_and_wait :
    Option ℕ → HttpBridgeFilter → HttpBridgeFilter × List Effect × Action
dispatch_and_wait answer s =
    let (s', calls) = dispatch_handle answer s in
    (s', calls, if s'.passthrough then continue else pause)

-- Whether a header asks for a WebSocket.
unfoldable pub is_websocket : Header → Bool
is_websocket (k, v) =
    eq_ignore_ascii_case k (ascii "upgrade") && eq_ignore_ascii_case v (ascii "websocket")

-- The loop over the headers, which returns at the first that does.
unfoldable pub asks_websocket : List Header → Bool
asks_websocket [] = false
asks_websocket (h ∷ hs) = is_websocket h || asks_websocket hs

unfoldable pub on_http_request_headers :
    HttpBridgeFilter → List Header → Bool → Option ℕ → HttpBridgeFilter × List Effect × Action
on_http_request_headers s headers end_of_stream answer =
    if asks_websocket headers
    then (record s { passthrough = true }, [], continue)
    else if end_of_stream
    then dispatch_and_wait answer (record s { req_headers = headers })
    else (record s { req_headers = headers; body_pending = true }, [], continue)

abbrev pub extend_body : HttpBridgeFilter → Option Bytes → HttpBridgeFilter
extend_body s none = s
extend_body s (some chunk) = record s { req_body = s.req_body ++ chunk }

unfoldable pub on_http_request_body :
    HttpBridgeFilter → Option Bytes → Bool → Option ℕ → HttpBridgeFilter × List Effect × Action
on_http_request_body s chunk end_of_stream answer =
    if s.passthrough
    then (s, [], continue)
    else if not s.body_pending
    then (s, [], continue)
    else if end_of_stream
    then dispatch_and_wait answer (record (extend_body s chunk) { body_pending = false })
    else (extend_body s chunk, [], continue)

abbrev pub on_http_response_headers : HttpBridgeFilter → HttpBridgeFilter × Action
on_http_response_headers s = (s, continue)

-- The response for what `decode_http_response` makes of the body.
unfoldable pub answer_decoded : Outcome HttpResponse → Outcome (List Effect)
answer_decoded nothing = ok (send_http_response 502 [] (ascii "grpcgi: decode error") ∷ [])
answer_decoded panic = panic
answer_decoded stuck = stuck
answer_decoded (ok r) = ok (send_http_response r.status r.headers r.body ∷ [])

-- The response for what `get_grpc_call_response_body` answers.
unfoldable pub answer_body : Option Bytes → Outcome (List Effect)
answer_body none = ok (send_http_response 502 [] (ascii "grpcgi: empty response") ∷ [])
answer_body (some raw) = answer_decoded (decode_http_response raw)

-- `Some(token_id) == self.call_token`
abbrev pub is_own : Option ℕ → ℕ → Bool
is_own none token_id = false
is_own (some token) token_id = token_id == token

unfoldable pub on_grpc_call_response :
    HttpBridgeFilter → ℕ → ℕ → Option Bytes → Outcome (List Effect)
on_grpc_call_response s token_id status_code body =
    if not (is_own s.call_token token_id)
    then ok []
    else if not (status_code == 0)
    then ok (send_http_response 502 [] (ascii "grpcgi: gRPC error") ∷ [])
    else answer_body body
