-- ===== src/Ws/Stream/Chunks.antt =====
-- The stream in the active state, whatever chunks the client's bytes arrive in.
use grpcgi.Base.{ℕ, ◌≡◌, refl, sym, ap, ap₂, subst, ◌∙◌, Option}
use grpcgi.Base.{List, [], ◌∷◌, ◌++◌, concat}
use grpcgi.Base.{append_assoc, append-nil}
use grpcgi.Base.{All, All-front, some, ok, nothing, ◌>>=◌, Outcome}
use grpcgi.Base.Machine.{Bytes}
use grpcgi.Base.Text.{Text}
use grpcgi.Ws.FrameCodec.{parse_ws_frame}
use grpcgi.Ws.FrameCodec.Rfc6455.{Frame}
use grpcgi.Ws.FrameCodec.RoundTrip.{parse_ws_frame-frame_bytes}
use grpcgi.Ws.Stream.{WsBridgeStream, State, active, Effect, after, process_ws_frames}
use grpcgi.Ws.Stream.{downstream_in, on_downstream_data}
use grpcgi.Base.Host.{pause}
use grpcgi.Ws.Stream.Frames.{IsOpenFrame, stream_bytes, with_buf, reactions}
use grpcgi.Ws.Stream.Frames.{process_ws_frames-stream_bytes}
use grpcgi.Ws.Stream.Cut.{parse_nothing, Cut-stream_bytes}

module _ (unicode_lowercase : Text → Text) where
  -- `on_downstream_data` for each chunk in turn, with all the calls that it makes.
  unfoldable pub deliver_chunks :
      WsBridgeStream → List Bytes → Outcome (WsBridgeStream × List Effect)
  deliver_chunks s [] = ok (s, [])
  deliver_chunks s (c ∷ cs) =
      on_downstream_data unicode_lowercase s (some c) >>= λ r. deliver_chunks r.0 cs >>= after r.1

  -- In the active state a chunk is put behind the buffer and the frames are processed.
  active-on_downstream_data :
      (s : WsBridgeStream) (c : Bytes) {s' : WsBridgeStream} {calls : List Effect}
      → s.state ≡ active
      → process_ws_frames (with_buf s (s.downstream_buf ++ c)) ≡ ok (s', calls)
      → on_downstream_data unicode_lowercase s (some c) ≡ ok (s', calls, pause)
  unfolding on_downstream_data downstream_in
  active-on_downstream_data s c a e =
      ap (λ (st : State). downstream_in unicode_lowercase st (some c) s) a ∙ rw e

  reactions-append :
      (id : Option ℕ) (fs gs : List Frame)
      → reactions id (fs ++ gs) ≡ reactions id fs ++ reactions id gs
  reactions-append id [] gs = refl
  reactions-append id (f ∷ fs) gs = rw (reactions-append id fs gs, append_assoc)

  no_frame_left :
      (fs : List Frame) (piece : Bytes)
      → All IsOpenFrame fs
      → piece ≡ stream_bytes fs
      → parse_ws_frame piece ≡ nothing
      → fs ≡ []
  no_frame_left [] piece valid e incomplete = refl
  no_frame_left (f ∷ fs) piece valid e incomplete =
      cc (parse_ws_frame-frame_bytes f (stream_bytes fs) valid.0.0, ap parse_ws_frame e, incomplete)

  All-back : (fs gs : List Frame) → All IsOpenFrame (fs ++ gs) → All IsOpenFrame gs
  All-back [] gs valid = valid
  All-back (f ∷ fs) gs valid = All-back fs gs valid.1

  deliver_chunks-reactions :
      (chunks : List Bytes) (fs : List Frame) (s : WsBridgeStream)
      → s.state ≡ active
      → All IsOpenFrame fs
      → parse_ws_frame s.downstream_buf ≡ nothing
      → s.downstream_buf ++ concat chunks ≡ stream_bytes fs
      → deliver_chunks s chunks ≡ ok (with_buf s [], reactions s.grpc_stream_id fs)
  unfolding deliver_chunks
  deliver_chunks-reactions [] fs s a valid incomplete e =
      let empty = no_frame_left fs s.downstream_buf valid (sym (append-nil _) ∙ e) incomplete in
      ap₂ (λ (buf : Bytes) (l : List Effect). ok (with_buf s buf, l))
        (sym (append-nil _) ∙ e ∙ ap stream_bytes empty)
        (sym (ap (reactions s.grpc_stream_id) empty))
  deliver_chunks-reactions (c ∷ cs) fs s a valid incomplete e =
      let cut =
        Cut-stream_bytes fs (s.downstream_buf ++ c) (concat cs) valid (append_assoc _ c _ ∙ e) in
      let valid' = subst (All IsOpenFrame) cut.splits valid in
      let all = reactions-append s.grpc_stream_id cut.before cut.behind in
      let processed : process_ws_frames (with_buf s (s.downstream_buf ++ c))
          ≡ ok (with_buf s cut.piece, reactions s.grpc_stream_id cut.before) =
        rw cut.front (
          process_ws_frames-stream_bytes cut.before s cut.piece
            (All-front IsOpenFrame cut.before cut.behind valid') cut.incomplete) in
      let later =
        deliver_chunks-reactions cs cut.behind (with_buf s cut.piece) a
          (All-back cut.before cut.behind valid') cut.incomplete cut.back in
      rw (active-on_downstream_data s c a processed) (
        rw later (
          ap (λ (l : List Effect). ok (with_buf s [], l))
            (sym all ∙ ap (reactions s.grpc_stream_id) (sym cut.splits))))

-- In the active state, frames that do not close the connection lead to the same calls, frame by
-- frame and in order, in whatever chunks their bytes arrive; nothing is left in the buffer.
pub deliver_chunks-stream_bytes :
    (unicode_lowercase : Text → Text) (chunks : List Bytes) (fs : List Frame) (s : WsBridgeStream)
    → s.state ≡ active
    → s.downstream_buf ≡ []
    → All IsOpenFrame fs
    → concat chunks ≡ stream_bytes fs
    → deliver_chunks unicode_lowercase s chunks ≡ ok (s, reactions s.grpc_stream_id fs)
deliver_chunks-stream_bytes unicode_lowercase chunks fs s a empty valid e =
    deliver_chunks-reactions unicode_lowercase chunks fs s a valid
      (ap parse_ws_frame empty ∙ parse_nothing) (ap (λ (l : Bytes). l ++ concat chunks) empty ∙ e)
    ∙ ap (λ (l : Bytes). ok (with_buf s l, reactions s.grpc_stream_id fs)) (sym empty)
