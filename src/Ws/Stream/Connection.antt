-- ===== src/Ws/Stream/Connection.antt =====
-- A whole connection through the stream context of wasm/src/lib.rs: upgrade, response and frames.
use grpcgi.Base.{ℕ, ◌<◌, ◌≡◌, refl, ◌∙◌, true, arith, List, [], ◌∷◌, ◌++◌, concat}
use grpcgi.Base.{length, map, All, some, ok}
use grpcgi.Base.{drop-append_self, take-append_self, inl, inr}
use grpcgi.Base.Machine.{Bytes}
use grpcgi.Base.Text.{Text, ascii}
use grpcgi.Base.Utf8.{is_utf8}
use grpcgi.Ws.FrameCodec.Rfc6455.{Frame, frame_bytes}
use grpcgi.Ws.Search.{contains_subsequence}
use grpcgi.Ws.Search.Laws.{OccursAt, OccursAt-fits, find_subsequence_cases, find_subsequence_none}
use grpcgi.Ws.Upgrade.Rfc7230.{RequestHead, IsRequestHead, head_bytes}
use grpcgi.Ws.Upgrade.Parse.{head_headers}
use grpcgi.Ws.Root.{WsBridgeRoot, create_stream_context}
use grpcgi.Ws.Stream.{active, WsBridgeStream, Effect, open_grpc_stream, switching_protocols}
use grpcgi.Ws.Stream.{upstream_in, on_upstream_data, switch_protocols}
use grpcgi.Ws.Stream.Frames.{IsOpenFrame, stream_bytes, reactions}
use grpcgi.Ws.Stream.Gather.{captured, deliver_chunks-head_bytes}
use grpcgi.Ws.Stream.Machine.{upstream, handle}
use grpcgi.Ws.Stream.Machine.Runs.{run, run-append, chunk_events, run-chunk_events}
use grpcgi.Ws.FrameCodec.Encode.{server_frame, encode_ws_frame-frame_bytes}
use grpcgi.Ws.Stream.{set_downstream_data, on_grpc_stream_close, on_grpc_stream_initial_metadata}
use grpcgi.Ws.Stream.Closing.{with_no_stream}
use grpcgi.Ws.Stream.Machine.{initial_metadata, closed}
use grpcgi.Ws.Stream.Interleaving.{Arrival, IsArrival, event_of, client_chunks, deliveries}
use grpcgi.Ws.Stream.Interleaving.{Interleaving, run-arrivals}

-- `contains_subsequence` sees a needle wherever it stands.
contains_subsequence-OccursAt :
    (before needle behind : Bytes)
    → 0 < length needle
    → contains_subsequence (before ++ (needle ++ behind)) needle ≡ ok true
unfolding contains_subsequence
contains_subsequence-OccursAt before needle behind some_needle =
    let haystack : Bytes = before ++ (needle ++ behind) in
    let there : OccursAt haystack needle (length before) =
      rw (drop-append_self before (needle ++ behind)) (take-append_self needle behind) in
    elim (find_subsequence_cases haystack needle some_needle) [
      | inl nowhere ↦ absurd (
          find_subsequence_none haystack needle (length before) some_needle nowhere
            (OccursAt-fits haystack needle (length before) some_needle there) there)
      | inr (i, found) ↦ rw found
    ]

-- The context of a connection that grpcgi serves: the stream that `root` makes, with the headers of
-- the request, active, and with the token of its gRPC stream.
abbrev pub served : (Text → Text) → WsBridgeRoot → RequestHead → ℕ → WsBridgeStream
served unicode_lowercase root r token = record {
  state = active;
  downstream_buf = [];
  grpc_stream_id = some token;
  upgrade_headers = head_headers unicode_lowercase r;
  grpc_cluster = root.grpc_cluster;
  grpc_service = root.grpc_service;
}

abbrev pub connect : (Text → Text) → WsBridgeRoot → RequestHead → Effect
connect unicode_lowercase root r =
    open_grpc_stream root.grpc_cluster root.grpc_service (ascii "Connect")
      (head_headers unicode_lowercase r)

-- The close frame with code 1000.
abbrev pub goodbye : Effect
goodbye = set_downstream_data (frame_bytes (server_frame 0x08 (0x03 ∷ 0xe8 ∷ [])))

module _ (unicode_lowercase : Text → Text) (root : WsBridgeRoot) (r : RequestHead) (token : ℕ) where
  -- The stream that waits for the upgrade response.
  waiting : WsBridgeStream
  waiting = captured (create_stream_context root) (head_headers unicode_lowercase r)

  response-connects :
      (before behind : Bytes)
      → handle unicode_lowercase waiting
          (upstream (some (before ++ (switching_protocols ++ behind))) (some token))
        ≡ ok (served unicode_lowercase root r token, connect unicode_lowercase root r ∷ [])
  unfolding waiting handle on_upstream_data upstream_in switch_protocols create_stream_context
  response-connects before behind =
      rw (contains_subsequence-OccursAt before switching_protocols behind (omega arith)) refl

  run-request :
      (cs : List Bytes) (last extra : Bytes) (later : List Bytes)
      → IsRequestHead r
      → is_utf8 (head_bytes r) ≡ true
      → concat cs ++ last ≡ head_bytes r ++ extra
      → length (concat cs) < length (head_bytes r)
      → run unicode_lowercase (create_stream_context root) (chunk_events (cs ++ last ∷ later))
        ≡ ok (waiting, [])
  unfolding waiting create_stream_context
  run-request cs last extra later valid text e short =
      run-chunk_events unicode_lowercase (cs ++ last ∷ later) (create_stream_context root)
      ∙ deliver_chunks-head_bytes unicode_lowercase (create_stream_context root) r cs last extra
          later refl refl valid text e short

  closed-says_goodbye :
      run unicode_lowercase (served unicode_lowercase root r token) (closed ∷ [])
      ≡ ok (with_no_stream (served unicode_lowercase root r token), goodbye ∷ [])
  unfolding run handle on_grpc_stream_close
  closed-says_goodbye = rw (encode_ws_frame-frame_bytes 0x08 (0x03 ∷ 0xe8 ∷ []) (omega arith)) refl

  run-served :
      (before behind : Bytes) (arrivals : List Arrival) (fs : List Frame)
      → All IsArrival arrivals
      → All IsOpenFrame fs
      → concat (client_chunks arrivals) ≡ stream_bytes fs
      → (calls : List Effect) × (run unicode_lowercase waiting (
            upstream (some (before ++ (switching_protocols ++ behind))) (some token)
            ∷ initial_metadata token
            ∷ (map event_of arrivals ++ closed ∷ []))
          ≡ ok (
            with_no_stream (served unicode_lowercase root r token),
            connect unicode_lowercase root r ∷ (calls ++ goodbye ∷ []),
          ))
        × Interleaving (reactions (some token) fs) (deliveries arrivals) calls
  run-served before behind arrivals fs valid frames e =
      let open_ = served unicode_lowercase root r token in
      let (calls, ran, mixed) =
        run-arrivals unicode_lowercase arrivals fs open_ refl refl valid frames e in
      let ended : run unicode_lowercase open_ (map event_of arrivals ++ closed ∷ [])
          ≡ ok (with_no_stream open_, calls ++ goodbye ∷ []) =
        run-append unicode_lowercase (map event_of arrivals) (closed ∷ []) open_
        ∙ rw ran (rw closed-says_goodbye refl) in
      (
        calls,
        unfold run handle on_grpc_stream_initial_metadata in
            rw (response-connects before behind) (rw ended refl),
        mixed,
      )

-- A whole connection. A well-formed upgrade request in UTF-8 in any chunks, then a response that
-- says 101, then the client's frames in any chunks, none of them a close frame, with well-formed
-- messages of the server between them in any order, and then the end of the gRPC stream. The calls
-- are exactly these: the gRPC stream is opened once, when the response has come, with the request's
-- headers; then, in an order that keeps that of each side, one call for each data frame and ping of
-- the client and one for each message of the server; and at the end a close frame with code 1000 for
-- the client. Nothing is left in the buffer.
pub run-connection :
    (unicode_lowercase : Text → Text) (root : WsBridgeRoot) (r : RequestHead) (token : ℕ)
    (cs : List Bytes) (last extra : Bytes) (later : List Bytes) (before behind : Bytes)
    (arrivals : List Arrival) (fs : List Frame)
    → IsRequestHead r
    → is_utf8 (head_bytes r) ≡ true
    → concat cs ++ last ≡ head_bytes r ++ extra
    → length (concat cs) < length (head_bytes r)
    → All IsArrival arrivals
    → All IsOpenFrame fs
    → concat (client_chunks arrivals) ≡ stream_bytes fs
    → (calls : List Effect) × (run unicode_lowercase (create_stream_context root) (
          chunk_events (cs ++ last ∷ later)
          ++ upstream (some (before ++ (switching_protocols ++ behind))) (some token)
            ∷ initial_metadata token
            ∷ (map event_of arrivals ++ closed ∷ []))
        ≡ ok (
          with_no_stream (served unicode_lowercase root r token),
          connect unicode_lowercase root r ∷ (calls ++ goodbye ∷ []),
        ))
      × Interleaving (reactions (some token) fs) (deliveries arrivals) calls
run-connection ul root r token cs last extra later before behind arrivals fs head text e short valid
      frames f =
    let (calls, ran, mixed) = run-served ul root r token before behind arrivals fs valid frames f in
    (
      calls,
      run-append ul (chunk_events (cs ++ last ∷ later)) _ (create_stream_context root)
          ∙ rw (run-request ul root r token cs last extra later head text e short) (rw ran refl),
      mixed,
    )
