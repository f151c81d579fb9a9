-- ===== src/Ws/Stream/Interleaving.antt =====
-- The stream context of wasm/src/lib.rs in the active state, with the client's chunks and the
-- server's messages in any order.
use grpcgi.Base.{
  ◌≤◌, ◌≡◌, refl, subst, List, [], ◌∷◌, ◌++◌, concat, map, All, some, false, if◌then◌else◌,
}
use grpcgi.Base.{Outcome, ok, >>=-eq-ok}
use grpcgi.Base.Host.{Action}
use grpcgi.Base.Machine.{Bytes, IsSlice}
use grpcgi.Base.Text.{Text}
use grpcgi.Wire.Fields.{Field, IsField, message_bytes}
use grpcgi.Ws.FrameCodec.Rfc6455.{Frame, frame_bytes}
use grpcgi.Ws.FrameCodec.Encode.{server_frame}
use grpcgi.Ws.FrameProto.Arm.{apply_fields}
use grpcgi.Ws.Stream.{WsBridgeStream, Effect, active, after, set_downstream_data}
use grpcgi.Ws.Stream.{on_downstream_data}
use grpcgi.Ws.Stream.Frames.{IsOpenFrame, stream_bytes, reactions}
use grpcgi.Ws.Stream.Chunks.{deliver_chunks, deliver_chunks-stream_bytes}
use grpcgi.Ws.Stream.Deliver.{on_grpc_stream_message-frame_bytes}
use grpcgi.Ws.Stream.Machine.{Event, downstream, message, handle}
use grpcgi.Ws.Stream.Machine.Runs.{run}

-- A chunk of bytes from the client, or the fields of a message from the server.
pub data Arrival : Type 0 where
  from_client : Bytes → Arrival
  from_server : List Field → Arrival

abbrev pub event_of : Arrival → Event
event_of (from_client c) = downstream (some c)
event_of (from_server fs) = message (some (message_bytes fs))

abbrev pub client_chunks : List Arrival → List Bytes
client_chunks [] = []
client_chunks (from_client c ∷ arrivals) = c ∷ client_chunks arrivals
client_chunks (from_server fs ∷ arrivals) = client_chunks arrivals

-- The frame that a message of the server should become.
abbrev pub message_frame : List Field → Bytes
message_frame fs =
    let frame = apply_fields fs ([], false) in
    frame_bytes (server_frame (if frame.1 then 0x02 else 0x01) frame.0)

-- The calls that the messages of the server should lead to.
abbrev pub deliveries : List Arrival → List Effect
deliveries [] = []
deliveries (from_client c ∷ arrivals) = deliveries arrivals
deliveries (from_server fs ∷ arrivals) =
    set_downstream_data (message_frame fs) ∷ deliveries arrivals

-- Messages of the server are well formed.
abbrev pub IsArrival : Arrival → Type 0
IsArrival (from_client c) = 0 ≤ 0
IsArrival (from_server fs) =
    All IsField fs × IsSlice (message_bytes fs) × IsSlice (apply_fields fs ([], false)).0

-- `zs` has the members of `xs` and those of `ys`, each in order.
pub data Interleaving {A : Type 0} : List A → List A → List A → Type 0 where
  none_left : Interleaving [] [] []
  from_first :
      (x : A) {xs ys zs : List A} → Interleaving xs ys zs → Interleaving (x ∷ xs) ys (x ∷ zs)
  from_second :
      (y : A) {xs ys zs : List A} → Interleaving xs ys zs → Interleaving xs (y ∷ ys) (y ∷ zs)

Interleaving-append :
    {A : Type 0} (before : List A) {xs ys zs : List A}
    → Interleaving xs ys zs
    → Interleaving (before ++ xs) ys (before ++ zs)
Interleaving-append [] h = h
Interleaving-append (x ∷ before) h = from_first x (Interleaving-append before h)

module _ (unicode_lowercase : Text → Text) where
  -- What the run should do, given what the chunks alone do.
  abbrev RunsBeside : List Arrival → WsBridgeStream → WsBridgeStream × List Effect → Type 0
  RunsBeside arrivals s r =
      (all : List Effect) × (run unicode_lowercase s (map event_of arrivals) ≡ ok (r.0, all))
      × Interleaving r.1 (deliveries arrivals) all

  abbrev Beside : List Arrival → WsBridgeStream → Outcome (WsBridgeStream × List Effect) → Type 0
  Beside arrivals s (ok r) = RunsBeside arrivals s r
  Beside arrivals s _ = 0 ≤ 0

  client-step :
      (arrivals : List Arrival) (s t : WsBridgeStream) (c : Bytes) (now : List Effect)
      (action : Action) (r : WsBridgeStream × List Effect)
      → on_downstream_data unicode_lowercase s (some c) ≡ ok (t, now, action)
      → RunsBeside arrivals t r
      → RunsBeside (from_client c ∷ arrivals) s (r.0, now ++ r.1)
  unfolding run handle
  client-step arrivals s t c now action r handled (all, ran, mixed) =
      (now ++ all, rw handled (rw ran refl), Interleaving-append now mixed)

  server-step :
      (arrivals : List Arrival) (s : WsBridgeStream) (fs : List Field)
      (r : WsBridgeStream × List Effect)
      → IsArrival (from_server fs)
      → RunsBeside arrivals s r
      → RunsBeside (from_server fs ∷ arrivals) s r
  unfolding run handle
  server-step arrivals s fs r (valid, small, fits) (all, ran, mixed) = (
    set_downstream_data (message_frame fs) ∷ all,
    rw (on_grpc_stream_message-frame_bytes fs valid small fits) (rw ran refl),
    from_second (set_downstream_data (message_frame fs)) mixed,
  )

  run-beside :
      (arrivals : List Arrival) (s : WsBridgeStream) (r : WsBridgeStream × List Effect)
      → All IsArrival arrivals
      → deliver_chunks unicode_lowercase s (client_chunks arrivals) ≡ ok r
      → RunsBeside arrivals s r
  unfolding deliver_chunks
  run-beside [] s r valid e = subst (Beside [] s) e ([], unfold run in refl, none_left)
  run-beside (from_client c ∷ arrivals) s r valid e =
      let (q, handled, rest) = >>=-eq-ok (on_downstream_data unicode_lowercase s (some c)) _ e in
      let (p, done, joined) =
        >>=-eq-ok (deliver_chunks unicode_lowercase q.0 (client_chunks arrivals)) (after q.1)
          rest in
      subst (Beside (from_client c ∷ arrivals) s) joined
        (client-step arrivals s q.0 c q.1 q.2 p handled (run-beside arrivals q.0 p valid.1 done))
  run-beside (from_server fs ∷ arrivals) s r valid e =
      server-step arrivals s fs r valid.0 (run-beside arrivals s r valid.1 e)

-- In the active state, the client's frames in any chunks, none of them a close frame, and
-- well-formed messages of the server may arrive in any order: the calls are exactly those that the
-- frames ask for (a data frame is sent to the server as one message, which does not end the stream, if
-- the context has the token of a gRPC stream; a ping is answered by a pong) and one for each message of
-- the server, which sends the client its frame, each in order; and the context is left as it was, with
-- an empty buffer.
pub run-arrivals :
    (unicode_lowercase : Text → Text) (arrivals : List Arrival) (fs : List Frame)
    (s : WsBridgeStream)
    → s.state ≡ active
    → s.downstream_buf ≡ []
    → All IsArrival arrivals
    → All IsOpenFrame fs
    → concat (client_chunks arrivals) ≡ stream_bytes fs
    → (all : List Effect) × (run unicode_lowercase s (map event_of arrivals) ≡ ok (s, all))
      × Interleaving (reactions s.grpc_stream_id fs) (deliveries arrivals) all
run-arrivals unicode_lowercase arrivals fs s a empty valid frames e =
    run-beside unicode_lowercase arrivals s (s, reactions s.grpc_stream_id fs) valid
      (deliver_chunks-stream_bytes unicode_lowercase (client_chunks arrivals) fs s a empty frames e)
