-- ===== src/Ws/Stream/Merging/Opening.antt =====
-- When `process_ws_frames` of wasm/src/lib.rs closes the gRPC stream, for bytes in two parts.
use grpcgi.Base.{
  ℕ, suc, ◌≡◌, sym, subst, ◌∙◌, arith, List, ◌++◌, length, length-drop, length-append, drop,
  drop-append_le, All, All-drop,
}
use grpcgi.Base.{some, ok, nothing, panic, stuck, ◌>>=◌}
use grpcgi.Base.Machine.{Bytes, IsByte, IsSlice}
use grpcgi.Ws.FrameCodec.Bounds.{parse_ws_frame_takes}
use grpcgi.Ws.FrameCodec.Parse.{parse_ws_frame-append}
use grpcgi.Ws.FrameCodec.Panic.{}
use grpcgi.Ws.Stream.{WsBridgeStream, Effect, after}
use grpcgi.Ws.Stream.{process_loop}
use grpcgi.Ws.Stream.Frames.{reaction, with_buf}
use grpcgi.Ws.Stream.Total.{
  Processed, waits, panics, closes, takes, frame_read, process_loop-Processed,
}
use grpcgi.Ws.Stream.Merging.{Result, StaysOpen, Processed-process_loop}

-- Closing the stream cannot be undone by the calls of a frame in front.
StaysOpen-after :
    (id : ℕ) (r : Result) (calls : List Effect) → StaysOpen id r → StaysOpen id (r >>= after calls)
StaysOpen-after id (ok (t, later)) calls open_ = open_
StaysOpen-after id nothing calls open_ = open_
StaysOpen-after id panic calls open_ = open_
StaysOpen-after id stuck calls open_ = open_

after-StaysOpen :
    (id : ℕ) (r : Result) (calls : List Effect) → StaysOpen id (r >>= after calls) → StaysOpen id r
after-StaysOpen id (ok (t, later)) calls open_ = open_
after-StaysOpen id nothing calls open_ = open_
after-StaysOpen id panic calls open_ = open_
after-StaysOpen id stuck calls open_ = open_

Processed-unique :
    (s : WsBridgeStream) (buf : Bytes) (r r' : Result)
    → IsSlice buf
    → Processed s buf r
    → Processed s buf r'
    → r' ≡ r
Processed-unique s buf r r' small p p' =
    sym (Processed-process_loop (suc (length buf)) s buf r' p' (omega arith) small)
    ∙ Processed-process_loop (suc (length buf)) s buf r p (omega arith) small

-- If the stream stays open on some bytes, it does so on their first part.
pub StaysOpen-front :
    (s : WsBridgeStream) (id : ℕ) (a b : Bytes) (r r' : Result)
    → s.grpc_stream_id ≡ some id
    → IsSlice (a ++ b)
    → All IsByte (a ++ b)
    → Processed s a r
    → Processed s (a ++ b) r'
    → StaysOpen id r'
    → StaysOpen id r
StaysOpen-front s id _ b _ r' has small bytes (waits a e) p' open_ = has
StaysOpen-front s id _ b _ r' has small bytes (panics a e w) p' open_ = omega arith
StaysOpen-front s id _ b _ r' has small bytes (closes a payload n e) p' open_ =
    let closed = closes (a ++ b) payload n (parse_ws_frame-append a b (λ q. cc) ∙ e) in
    let shut = subst (StaysOpen id) (Processed-unique s (a ++ b) _ r' small closed p') open_ in cc
StaysOpen-front s id _ b _ r' has small bytes (takes a payload opcode n later e other p) p' open_ =
    let bounds = parse_ws_frame_takes a opcode payload n e in
    let cut : drop n (a ++ b) ≡ drop n a ++ b = drop-append_le n a b (omega (arith, bounds)) in
    let rest : Bytes = drop n a ++ b in
    let now = reaction s.grpc_stream_id (frame_read opcode payload) in
    let fits : IsSlice rest =
      omega (arith, small, length-append a b, length-append (drop n a) b, length-drop n a) in
    let all : All IsByte rest = subst (All IsByte) cut (All-drop IsByte n (a ++ b) bytes) in
    let behind = process_loop (suc (length rest)) (with_buf s rest) in
    let processed : Processed s rest behind =
      process_loop-Processed (suc (length rest)) s rest (omega arith) fits all in
    let whole : Processed s (a ++ b) (behind >>= after now) =
      takes (a ++ b) payload opcode n behind (parse_ws_frame-append a b (λ q. cc) ∙ e) other
        (rw cut processed) in
    let open_whole : StaysOpen id (behind >>= after now) =
      subst (StaysOpen id) (Processed-unique s (a ++ b) _ r' small whole p') open_ in
    StaysOpen-after id later now (
      StaysOpen-front s id (drop n a) b later behind has fits all p processed
        (after-StaysOpen id behind now open_whole))
