-- ===== src/Ws/Stream/Closing.antt =====
-- `process_ws_frames` of wasm/src/lib.rs on a close frame.
use grpcgi.Base.{
  ℕ, suc, ◌+◌, ◌-◌, ◌≡◌, refl, ◌∙◌, arith, List, [], ◌∷◌, ◌++◌, length, length-append,
}
use grpcgi.Base.{All, Option, none, some, ok}
use grpcgi.Base.Machine.{Bytes, IsSlice}
use grpcgi.Ws.FrameCodec.Rfc6455.{Frame, frame_bytes}
use grpcgi.Ws.FrameCodec.RoundTrip.{parse_ws_frame-frame_bytes}
use grpcgi.Ws.Stream.{WsBridgeStream, Effect, close_grpc_stream, close_stream, handle_frame}
use grpcgi.Ws.Stream.{match_result, round_end, process_round, process_loop, process_ws_frames}
use grpcgi.Ws.Stream.Frames.{
  opcode_of, opcode_close, reactions, stream_bytes, IsOpenFrame, with_buf,
}
use grpcgi.Ws.Stream.Frames.{drain_frame, length-stream_bytes, process_loop-stream_bytes}

-- What closing should lead to: the gRPC stream is closed, if one is open.
abbrev pub closing : Option ℕ → List Effect
closing none = []
closing (some stream_id) = close_grpc_stream stream_id ∷ []

pub close_stream-closing : (id : Option ℕ) → close_stream id ≡ closing id
unfolding close_stream
close_stream-closing none = refl
close_stream-closing (some stream_id) = refl

-- The stream that has no gRPC stream any more.
abbrev pub with_no_stream : WsBridgeStream → WsBridgeStream
with_no_stream s = record s { grpc_stream_id = none }

process_loop-close :
    (fuel : ℕ) (s : WsBridgeStream) (f : Frame) (rest : Bytes)
    → IsSlice f.payload
    → opcode_of f ≡ opcode_close
    → process_loop (suc fuel) (with_buf s (frame_bytes f ++ rest))
      ≡ ok (with_no_stream (with_buf s rest), closing s.grpc_stream_id)
unfolding process_loop process_round match_result round_end handle_frame
process_loop-close fuel s f rest small close =
    rw
      (
        parse_ws_frame-frame_bytes f rest small,
        drain_frame f rest,
        close,
        close_stream-closing s.grpc_stream_id,
      )
      refl

-- A close frame behind other frames closes the gRPC stream when they have been handled, and nothing
-- else is called; what follows it stays in the buffer.
pub process_ws_frames-close :
    (fs : List Frame) (f : Frame) (s : WsBridgeStream) (rest : Bytes)
    → All IsOpenFrame fs
    → IsSlice f.payload
    → opcode_of f ≡ opcode_close
    → process_ws_frames (with_buf s (stream_bytes fs ++ (frame_bytes f ++ rest)))
      ≡ ok (
        with_no_stream (with_buf s rest),
        reactions s.grpc_stream_id fs ++ closing s.grpc_stream_id,
      )
unfolding process_ws_frames
process_ws_frames-close fs f s rest valid small close =
    let tail : Bytes = frame_bytes f ++ rest in
    let buf : Bytes = stream_bytes fs ++ tail in
    let spare : ℕ = length buf - length fs in
    let fuel : suc (length buf) ≡ length fs + suc spare =
      omega (arith, length-stream_bytes fs, length-append (stream_bytes fs) tail) in
    rw fuel (
      process_loop-stream_bytes fs (suc spare) s tail valid
      ∙ rw (process_loop-close spare s f rest small close) refl)
