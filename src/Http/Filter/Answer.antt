-- ===== src/Http/Filter/Answer.antt =====
-- What the filter of wasm/http-bridge/src/lib.rs makes of the answer to its call.
use grpcgi.Base.{ℕ, ◌+◌, ◌^◌, ◌<◌, arith, ◌≡◌, sym, ap, Bool, true, false, not}
use grpcgi.Base.{List, [], ◌∷◌, ◌++◌, All, Option, none, some, if◌then◌else◌, ◌==◌, ok, panic}
use grpcgi.Base.{nothing, stuck, Outcome}
use grpcgi.Base.Machine.{Bytes, IsSlice}
use grpcgi.Base.Text.{ascii}
use grpcgi.Wire.Varint.{varint}
use grpcgi.Http.Proto.{HttpResponse, decode_http_response}
use grpcgi.Http.Proto.Response.RoundTrip.{response_bytes, IsTextHeader}
use grpcgi.Http.Proto.Response.RoundTrip.{decode_http_response-response_bytes}
use grpcgi.Http.Filter.{HttpBridgeFilter, Effect, send_http_response, is_own, answer_decoded}
use grpcgi.Http.Filter.{answer_body, on_grpc_call_response}

-- The answer to the filter's own call is sent to the client as it is: its status, its headers, in
-- order, and its body.
pub on_grpc_call_response-response_bytes :
    (s : HttpBridgeFilter) (token : ℕ) (r : HttpResponse)
    → s.call_token ≡ some token
    → r.status < 2 ^ 32
    → All IsTextHeader r.headers
    → IsSlice r.body
    → IsSlice (response_bytes r)
    → on_grpc_call_response s token 0 (some (response_bytes r))
      ≡ ok (send_http_response r.status r.headers r.body ∷ [])
unfolding on_grpc_call_response answer_body answer_decoded
on_grpc_call_response-response_bytes s token r own status texts body small =
    let mine : is_own (some token) token ≡ true = ground arith in
    rw (own, mine, decode_http_response-response_bytes r status texts body small)

-- How many responses the calls send.
abbrev pub responses : List Effect → ℕ
responses [] = 0
responses (send_http_response status headers body ∷ calls) = 1 + responses calls
responses (_ ∷ calls) = responses calls

abbrev responses_of : Outcome (List Effect) → ℕ
responses_of (ok calls) = responses calls
responses_of nothing = 0
responses_of panic = 0
responses_of stuck = 0

answer_decoded-once :
    (decoded : Outcome HttpResponse) (calls : List Effect)
    → answer_decoded decoded ≡ ok calls
    → responses calls ≡ 1
unfolding answer_decoded
answer_decoded-once (ok r) calls e = ap responses_of (sym e)
answer_decoded-once nothing calls e = ap responses_of (sym e)
answer_decoded-once panic calls e = cc
answer_decoded-once stuck calls e = cc

answer_body-once :
    (body : Option Bytes) (calls : List Effect) → answer_body body ≡ ok calls → responses calls ≡ 1
unfolding answer_body
answer_body-once none calls e = ap responses_of (sym e)
answer_body-once (some raw) calls e = answer_decoded-once (decode_http_response raw) calls e

-- Whatever the status and the body, a callback that returns has sent one response if the token is
-- that of the filter's call, and none otherwise.
pub on_grpc_call_response-once :
    (s : HttpBridgeFilter) (token status_code : ℕ) (body : Option Bytes) (calls : List Effect)
    → on_grpc_call_response s token status_code body ≡ ok calls
    → responses calls ≡ (if is_own s.call_token token then 1 else 0)
unfolding on_grpc_call_response
on_grpc_call_response-once s token status_code body calls e =
    by_branch (is_own s.call_token token) (status_code == 0) e
  where
    by_branch :
        (own fine : Bool)
        → (if not own
            then ok []
            else if not fine
            then ok (send_http_response 502 [] (ascii "grpcgi: gRPC error") ∷ [])
            else answer_body body)
          ≡ ok calls
        → responses calls ≡ (if own then 1 else 0)
    by_branch false fine f = ap responses_of (sym f)
    by_branch true false f = ap responses_of (sym f)
    by_branch true true f = answer_body-once body calls f

-- A body field that is cut off: its length says more than is left of the message.
abbrev pub cut_off : ℕ → Bytes → Bytes
cut_off n content = varint 26 ++ (varint n ++ content)
