-- ===== src/Http/Filter/Request.antt =====
-- A whole request through the filter of wasm/http-bridge/src/lib.rs.
use grpcgi.Base.{ℕ, arith, ◌≡◌, refl, sym, ap, ◌∙◌, Bool, true, false}
use grpcgi.Base.{List, [], ◌∷◌, ◌++◌, append_assoc, append-nil, All, concat, Option, none, some}
use grpcgi.Base.Host.{Action, continue, pause}
use grpcgi.Base.Machine.{Bytes, IsSlice}
use grpcgi.Base.Text.{ascii}
use grpcgi.Wire.Fields.{message_bytes}
use grpcgi.Http.Proto.{Header, encode_http_request}
use grpcgi.Http.Proto.Request.{request_fields, FitsSlice, encode_http_request-message_bytes}
use grpcgi.Http.Filter.{HttpBridgeFilter, Effect, dispatch_grpc_call, initial_meta, dispatched}
use grpcgi.Http.Filter.{dispatch_handle, dispatch_and_wait, asks_websocket}
use grpcgi.Http.Filter.{on_http_request_headers, on_http_request_body}

abbrev pub Result : Type 0
Result = HttpBridgeFilter × List Effect × Action

abbrev pub then_calls : List Effect → Result → Result
then_calls before (s, later, action) = (s, before ++ later, action)

-- `on_http_request_body` for chunks that do not end the stream.
unfoldable pub deliver_chunks :
    HttpBridgeFilter → List Bytes → Option ℕ → HttpBridgeFilter × List Effect
deliver_chunks s [] answer = (s, [])
deliver_chunks s (c ∷ cs) answer =
    let now = on_http_request_body s (some c) false answer in
    let later = deliver_chunks now.0 cs answer in (later.0, now.1 ++ later.1)

-- The callbacks of a request with a body: headers, chunks, and a chunk that ends the stream.
unfoldable pub run_request : HttpBridgeFilter → List Header → List Bytes → Bytes → Option ℕ → Result
run_request s headers chunks last answer =
    let first = on_http_request_headers s headers false answer in
    let middle = deliver_chunks first.0 chunks answer in
    then_calls (first.1 ++ middle.1) (on_http_request_body middle.0 (some last) true answer)

-- The filter that waits for the rest of a body.
abbrev waiting : HttpBridgeFilter → List Header → Bytes → HttpBridgeFilter
waiting s headers body = record s { req_headers = headers; req_body = body; body_pending = true }

-- `on_http_request_body` while a body is waited for, and on a request that is passed through.
pub body-gathers :
    (s : HttpBridgeFilter) (c : Bytes) (answer : Option ℕ)
    → s.passthrough ≡ false
    → s.body_pending ≡ true
    → on_http_request_body s (some c) false answer
      ≡ (record s { req_body = s.req_body ++ c }, [], continue)
unfolding on_http_request_body
body-gathers s c answer open_ pending = simp (open_, pending) refl

body-ends :
    (s : HttpBridgeFilter) (c : Bytes) (answer : Option ℕ)
    → s.passthrough ≡ false
    → s.body_pending ≡ true
    → on_http_request_body s (some c) true answer
      ≡ dispatch_and_wait answer (record s { req_body = s.req_body ++ c; body_pending = false })
unfolding on_http_request_body
body-ends s c answer open_ pending = simp (open_, pending) refl

pub body-passes :
    (s : HttpBridgeFilter) (c : Bytes) (end_of_stream : Bool) (answer : Option ℕ)
    → s.passthrough ≡ true
    → on_http_request_body s (some c) end_of_stream answer ≡ (s, [], continue)
unfolding on_http_request_body
body-passes s c end_of_stream answer through = simp through refl

deliver_chunks-waiting :
    (chunks : List Bytes) (s : HttpBridgeFilter) (headers : List Header) (body : Bytes)
    (answer : Option ℕ)
    → s.passthrough ≡ false
    → deliver_chunks (waiting s headers body) chunks answer
      ≡ (waiting s headers (body ++ concat chunks), [])
unfolding deliver_chunks
deliver_chunks-waiting [] s headers body answer open_ =
    ap (λ (b : Bytes). (waiting s headers b, [])) (sym (append-nil body))
deliver_chunks-waiting (c ∷ cs) s headers body answer open_ =
    rw
      (
        body-gathers (waiting s headers body) c answer open_ refl,
        deliver_chunks-waiting cs s headers (body ++ c) answer open_,
      )
      (ap (λ (b : Bytes). (waiting s headers b, [])) (append_assoc body c (concat cs)))

-- What `dispatch_handle` should do with a request, and how the filter is left.
abbrev pub the_call : HttpBridgeFilter → Bytes → Effect
the_call s msg =
    dispatch_grpc_call s.cluster (ascii "grpcgi.v1.HttpBridge") (ascii "Handle")
      (initial_meta s.authority) msg 30

-- A call that was made is waited for; without one, the request goes on as it is.
abbrev pub waits : Option ℕ → Action
waits none = continue
waits (some token) = pause

-- The filter behind the call: it keeps the token of the call, and where the call has failed it lets
-- the request pass.
abbrev pub behind_call : Option ℕ → HttpBridgeFilter → HttpBridgeFilter
behind_call none s = record s { passthrough = true }
behind_call (some token) s = record s { call_token = some token }

dispatch-waits :
    (answer : Option ℕ) (s : HttpBridgeFilter)
    → s.passthrough ≡ false
    → dispatch_and_wait answer s ≡ (
      behind_call answer s,
      the_call s (encode_http_request s.req_headers s.req_body) ∷ [],
      waits answer,
    )
unfolding dispatch_and_wait dispatch_handle dispatched
dispatch-waits none s open_ = refl
dispatch-waits (some token) s open_ = rw open_

-- A request with a body that does not ask for a WebSocket leads to one call, when the stream ends:
-- `Handle` with the headers and the joined chunks in the wire format of `HttpRequest`. The last chunk
-- is held back and the call's token kept; where the call fails, the last chunk goes on and the request
-- is marked as passed through. Headers and body fit slices.
pub run_request-dispatches :
    (s : HttpBridgeFilter) (headers : List Header) (chunks : List Bytes) (last : Bytes)
    (answer : Option ℕ)
    → s.passthrough ≡ false
    → s.req_body ≡ []
    → asks_websocket headers ≡ false
    → All FitsSlice headers
    → IsSlice (concat chunks ++ last)
    → run_request s headers chunks last answer ≡ (
      behind_call answer (record s {
        req_headers = headers;
        req_body = concat chunks ++ last;
        body_pending = false;
      }),
      the_call s (message_bytes (request_fields headers (concat chunks ++ last))) ∷ [],
      waits answer,
    )
unfolding run_request on_http_request_headers
run_request-dispatches s headers chunks last answer open_ empty plain fits small =
    let msg = encode_http_request-message_bytes headers (concat chunks ++ last) fits small in
    let gathered : deliver_chunks (waiting s headers s.req_body) chunks answer
        ≡ (waiting s headers (concat chunks), []) =
      deliver_chunks-waiting chunks s headers s.req_body answer open_
      ∙ ap (λ (b : Bytes). (waiting s headers (b ++ concat chunks), [])) empty in
    rw
      (plain, gathered, body-ends (waiting s headers (concat chunks)) last answer open_ refl, ← msg)
      (ap (then_calls []) (dispatch-waits answer _ open_))

-- A request without a body that does not ask for a WebSocket is dispatched at once, with its headers
-- and an empty body in the wire format of `HttpRequest`. It is held back and the call's token kept;
-- where the call fails, the request goes on and is marked as passed through. Headers fit slices.
pub headers-dispatch :
    (s : HttpBridgeFilter) (headers : List Header) (answer : Option ℕ)
    → s.passthrough ≡ false
    → s.req_body ≡ []
    → asks_websocket headers ≡ false
    → All FitsSlice headers
    → on_http_request_headers s headers true answer ≡ (
      behind_call answer (record s { req_headers = headers }),
      the_call s (message_bytes (request_fields headers [])) ∷ [],
      waits answer,
    )
unfolding on_http_request_headers
headers-dispatch s headers answer open_ empty plain fits =
    let msg = encode_http_request-message_bytes headers [] fits (omega arith) in
    rw (plain, ← msg)
      (dispatch-waits answer (record s { req_headers = headers }) open_
        ∙ ap
            (λ (b : Bytes). (
              behind_call answer (record s { req_headers = headers }),
              the_call s (encode_http_request headers b) ∷ [],
              waits answer,
            ))
            empty)

-- Chunks that do not end the stream never lead to a call, however many there are, where a body is
-- waited for.
pub deliver_chunks-no_call :
    (s : HttpBridgeFilter) (headers : List Header) (chunks : List Bytes) (answer : Option ℕ)
    → s.passthrough ≡ false
    → asks_websocket headers ≡ false
    → (deliver_chunks (on_http_request_headers s headers false answer).0 chunks answer).1 ≡ []
unfolding on_http_request_headers
deliver_chunks-no_call s headers chunks answer open_ plain =
    rw (plain, deliver_chunks-waiting chunks s headers s.req_body answer open_)
