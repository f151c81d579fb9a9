-- ===== src/Http/Filter/Machine.antt =====
-- Every run of the filter of wasm/http-bridge/src/lib.rs under a host that calls
-- `on_http_request_headers` once. Chunks of a body, with or without the end of the stream, and answers
-- to calls may come at any time and any number of times.
pub mod Once
use grpcgi.Base.{
  ℕ, zero, suc, ◌+◌, ◌≤◌, ◌≡◌, ◌⊎◌, inl, inr, refl, sym, subst, arith, Bool, true, false, not, List,
  [], ◌∷◌, ◌++◌,
}
use grpcgi.Base.{ap, ◌==◌, Option, none, some, Outcome, ok, nothing, panic, stuck, if◌then◌else◌}
use grpcgi.Base.Machine.{Bytes}
use grpcgi.Base.Text.{ascii}
use grpcgi.Http.Proto.{Header, HttpResponse, decode_http_response}
use grpcgi.Http.Filter.{HttpBridgeFilter, Effect, dispatch_grpc_call, send_http_response, is_own}
use grpcgi.Http.Filter.{
  dispatched, dispatch_handle, dispatch_and_wait, on_http_request_headers, asks_websocket,
}
use grpcgi.Http.Filter.{
  answer_decoded, answer_body, extend_body, on_http_request_body, on_grpc_call_response,
}
use grpcgi.Http.Filter.Answer.{responses, on_grpc_call_response-once}
use grpcgi.Http.Root.{HttpBridgeRoot, create_http_context}

-- How many answers an answer with this token makes to the filter's own call.
abbrev pub answers_to : Option ℕ → ℕ → ℕ
answers_to none token = 0
answers_to (some own) token = if token == own then 1 else 0

-- `Reach root id headers_seen own calls s`: the filter is in state `s` after `calls`, with `own`
-- answers to its own call so far.
pub data Reach (root : HttpBridgeRoot) (context_id : ℕ)
    : Bool → ℕ → List Effect → HttpBridgeFilter → Type 0 where
  created : Reach root context_id false 0 [] (create_http_context root context_id)
  headers_in :
      (own : ℕ) (calls : List Effect) (s : HttpBridgeFilter)
      → Reach root context_id false own calls s
      → (headers : List Header) (end_of_stream : Bool) (answer : Option ℕ)
      → Reach root context_id true own
          (calls ++ (on_http_request_headers s headers end_of_stream answer).1)
          (on_http_request_headers s headers end_of_stream answer).0
  body_in :
      (headers_seen : Bool) (own : ℕ) (calls : List Effect) (s : HttpBridgeFilter)
      → Reach root context_id headers_seen own calls s
      → (chunk : Option Bytes) (end_of_stream : Bool) (answer : Option ℕ)
      → Reach root context_id headers_seen own
          (calls ++ (on_http_request_body s chunk end_of_stream answer).1)
          (on_http_request_body s chunk end_of_stream answer).0
  answer_in :
      (headers_seen : Bool) (own : ℕ) (calls new : List Effect) (s : HttpBridgeFilter)
      → Reach root context_id headers_seen own calls s
      → (token status_code : ℕ) (body : Option Bytes)
      → on_grpc_call_response s token status_code body ≡ ok new
      → Reach root context_id headers_seen (own + answers_to s.call_token token) (calls ++ new) s

-- How many calls of `Handle` there have been.
abbrev pub dispatches : List Effect → ℕ
dispatches [] = 0
dispatches (dispatch_grpc_call _ _ _ _ _ _ ∷ calls) = 1 + dispatches calls
dispatches (send_http_response _ _ _ ∷ calls) = dispatches calls
