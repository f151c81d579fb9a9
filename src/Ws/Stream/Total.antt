-- ===== src/Ws/Stream/Total.antt =====
-- `process_ws_frames` of wasm/src/lib.rs on any buffer.
use grpcgi.Base.{
  ℕ, zero, suc, ◌%◌, ◌<◌, ◌≡◌, ◌≢◌, refl, ap, sym, ◌∙◌, arith, List, [], length, length-drop, drop,
  All, All-drop, Bool-cases, inl, inr,
}
use grpcgi.Base.{none, true, false, Outcome, ok, nothing, panic, ◌>>=◌, ◌==◌}
use grpcgi.Base.Machine.{Bytes, IsByte, IsSlice, slice_from}
use grpcgi.Ws.FrameCodec.{parse_ws_frame}
use grpcgi.Ws.FrameCodec.Bounds.{parse_ws_frame_takes}
use grpcgi.Ws.FrameCodec.Rfc6455.{Frame}
use grpcgi.Ws.FrameCodec.Panic.{
  WrapsLength, asks_more, answers, wraps_around, parse_ws_frame-Parsed,
}
use grpcgi.Ws.Stream.{WsBridgeStream, Effect, handle_frame, after}
use grpcgi.Ws.Stream.{match_result, round_end, process_round, process_loop, process_ws_frames}
use grpcgi.Ws.Stream.Frames.{opcode_close, reaction, with_buf, handle_frame-reaction}
use grpcgi.Ws.Stream.Closing.{closing, close_stream-closing, with_no_stream}

-- The frame that the parser has read, as far as the parser tells.
abbrev pub frame_read : ℕ → Bytes → Frame
frame_read opcode payload = record { first = opcode; mask = none; payload = payload }

-- What the loop should do on the bytes `buf`, frame by frame: it waits at an incomplete frame, ends at
-- a close frame, panics at a length that wraps around, and makes the calls that any other frame
-- asks for before it goes on behind that frame.
pub data Processed (s : WsBridgeStream)
    : Bytes → Outcome (WsBridgeStream × List Effect) → Type 0 where
  waits : (buf : Bytes) → parse_ws_frame buf ≡ nothing → Processed s buf (ok (with_buf s buf, []))
  panics : (buf : Bytes) → parse_ws_frame buf ≡ panic → WrapsLength buf → Processed s buf panic
  closes :
      (buf payload : Bytes) (n : ℕ)
      → parse_ws_frame buf ≡ ok (opcode_close, payload, n)
      → Processed s buf (ok (with_no_stream (with_buf s (drop n buf)), closing s.grpc_stream_id))
  takes :
      (buf payload : Bytes) (opcode n : ℕ) (later : Outcome (WsBridgeStream × List Effect))
      → parse_ws_frame buf ≡ ok (opcode, payload, n)
      → opcode ≢ opcode_close
      → Processed s (drop n buf) later
      → Processed s buf (later >>= after (reaction s.grpc_stream_id (frame_read opcode payload)))

pub handle_frame-close :
    (s : WsBridgeStream) (opcode : ℕ) (payload : Bytes)
    → opcode ≡ opcode_close
    → handle_frame s opcode payload ≡ (with_no_stream s, closing s.grpc_stream_id, true)
unfolding handle_frame
handle_frame-close s opcode payload e = rw (e, close_stream-closing s.grpc_stream_id) refl

pub handle_frame-read :
    (s : WsBridgeStream) (opcode : ℕ) (payload : Bytes)
    → opcode < 16
    → opcode ≢ opcode_close
    → IsSlice payload
    → handle_frame s opcode payload
      ≡ (s, reaction s.grpc_stream_id (frame_read opcode payload), false)
handle_frame-read s opcode payload four other small =
    let same : opcode % 16 ≡ opcode = omega arith in
    ap (λ (o : ℕ). handle_frame s o payload) (sym same)
    ∙ handle_frame-reaction s (frame_read opcode payload) (small, λ e. other (sym same ∙ e))

pub process_loop-Processed :
    (fuel : ℕ) (s : WsBridgeStream) (buf : Bytes)
    → length buf < fuel
    → IsSlice buf
    → All IsByte buf
    → Processed s buf (process_loop fuel (with_buf s buf))
unfolding process_loop process_round match_result round_end
process_loop-Processed zero s buf h small bytes = absurd (omega (arith, h))
process_loop-Processed (suc fuel) s buf h small bytes = elim (parse_ws_frame-Parsed buf bytes) [
  | asks_more e ↦ rw e (waits buf e)
  | wraps_around e w ↦ rw e (panics buf e w)
  | answers (opcode, payload, n) e ↦
      let bounds = parse_ws_frame_takes buf opcode payload n e in
      let drained : slice_from buf n ≡ ok (drop n buf) = ground (arith, bounds) in
      let shorter : length (drop n buf) < fuel = omega (arith, bounds, length-drop n buf) in
      let t : WsBridgeStream = with_buf s (drop n buf) in
      elim (Bool-cases (opcode == opcode_close)) [
        | inl close ↦
            let is_close : opcode ≡ opcode_close = ground arith in
            rw (e, drained, handle_frame-close t opcode payload is_close)
              (closes buf payload n (e ∙ ap (λ (o : ℕ). ok (o, payload, n)) is_close))
        | inr other ↦
            let goes_on : opcode ≢ opcode_close = ground arith in
            rw
              (
                e,
                drained,
                handle_frame-read t opcode payload bounds.0 goes_on (omega (arith, bounds)),
              )
              (takes buf payload opcode n _ e goes_on (
                process_loop-Processed fuel s (drop n buf) shorter
                  (omega (arith, length-drop n buf)) (All-drop IsByte n buf bytes)))
      ]
]

-- On any buffer of bytes that fits a slice the loop ends, after it has taken the frames of the
-- buffer one by one and made the calls that each asks for, in order. It ends at an incomplete frame,
-- which it leaves in the buffer; at a close frame, which it takes, closing the gRPC stream; or by a
-- panic, at a header with a 64-bit length whose low 32 bits are within 14 of 2^32. Nothing else in
-- the context changes.
pub process_ws_frames-Processed :
    (s : WsBridgeStream)
    → IsSlice s.downstream_buf
    → All IsByte s.downstream_buf
    → Processed s s.downstream_buf (process_ws_frames s)
unfolding process_ws_frames
process_ws_frames-Processed s small bytes =
    process_loop-Processed (suc (length s.downstream_buf)) s s.downstream_buf (omega arith) small
      bytes
