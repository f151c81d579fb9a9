-- ===== src/Ws/Stream/Merging.antt =====
-- `process_ws_frames` of wasm/src/lib.rs on any bytes that arrive in two parts.
pub mod Delivery
pub mod Opening
use grpcgi.Base.{
  ℕ, zero, suc, ◌<◌, ◌≤◌, ◌≡◌, ◌≢◌, refl, ap, ap₂, sym, subst, ◌∙◌, arith, List, [], ◌∷◌, ◌++◌,
  length, length-drop, length-append, drop, append_assoc, drop-append_le, All, All-drop,
}
use grpcgi.Base.{none, some, Outcome, ok, nothing, panic, stuck, ◌>>=◌}
use grpcgi.Base.Host.{Action, pause}
use grpcgi.Base.Machine.{Bytes, IsByte, IsSlice, slice_from}
use grpcgi.Base.Text.{Text}
use grpcgi.Ws.FrameCodec.{parse_ws_frame}
use grpcgi.Ws.FrameCodec.Bounds.{parse_ws_frame_takes}
use grpcgi.Ws.FrameCodec.Parse.{parse_ws_frame-append}
use grpcgi.Ws.FrameCodec.Panic.{
  WrapsLength, asks_more, answers, wraps_around, parse_ws_frame-Parsed,
}
use grpcgi.Ws.Stream.{WsBridgeStream, State, active, Effect, after, append_chunk}
use grpcgi.Ws.Stream.{match_result, round_end, process_round, process_loop, process_ws_frames}
use grpcgi.Ws.Stream.{downstream_in, on_downstream_data}
use grpcgi.Ws.Stream.Frames.{opcode_close, reaction, with_buf}
use grpcgi.Ws.Stream.Closing.{with_no_stream}
use grpcgi.Ws.Stream.Chunks.{deliver_chunks}
use grpcgi.Ws.Stream.Total.{
  Processed, waits, panics, closes, takes, frame_read, handle_frame-close, handle_frame-read,
  process_loop-Processed, process_ws_frames-Processed,
}

abbrev pub Result : Type 0
Result = Outcome (WsBridgeStream × List Effect)

after_none : (r : Result) → (r >>= after []) ≡ r
after_none (ok (s, calls)) = refl
after_none nothing = refl
after_none panic = refl
after_none stuck = refl

pub after-after :
    (r : Result) (first second : List Effect)
    → (r >>= after second >>= after first) ≡ (r >>= after (first ++ second))
after-after (ok (s, calls)) first second =
    ap (λ (l : List Effect). ok (s, l)) (sym (append_assoc first second calls))
after-after nothing first second = refl
after-after panic first second = refl
after-after stuck first second = refl

-- What the loop should do is what it does, with enough fuel.
pub Processed-process_loop :
    (fuel : ℕ) (s : WsBridgeStream) (buf : Bytes) (r : Result)
    → Processed s buf r
    → length buf < fuel
    → IsSlice buf
    → process_loop fuel (with_buf s buf) ≡ r
unfolding process_loop process_round match_result round_end
Processed-process_loop zero s buf r p h small = absurd (omega (arith, h))
Processed-process_loop (suc fuel) s _ _ (waits buf e) h small = rw e refl
Processed-process_loop (suc fuel) s _ _ (panics buf e w) h small = rw e refl
Processed-process_loop (suc fuel) s _ _ (closes buf payload n e) h small =
    let bounds = parse_ws_frame_takes buf opcode_close payload n e in
    let drained : slice_from buf n ≡ ok (drop n buf) = ground (arith, bounds) in
    rw (e, drained, handle_frame-close (with_buf s (drop n buf)) opcode_close payload refl) refl
Processed-process_loop (suc fuel) s _ _ (takes buf payload opcode n later e other p) h small =
    let bounds = parse_ws_frame_takes buf opcode payload n e in
    let drained : slice_from buf n ≡ ok (drop n buf) = ground (arith, bounds) in
    let shorter : length (drop n buf) < fuel = omega (arith, bounds, length-drop n buf) in
    let t : WsBridgeStream = with_buf s (drop n buf) in
    rw (e, drained, handle_frame-read t opcode payload bounds.0 other (omega (arith, bounds)))
      (rw
        (Processed-process_loop fuel s (drop n buf) later p shorter
          (omega (arith, length-drop n buf)))
        refl)

panic-WrapsLength : (buf : Bytes) → All IsByte buf → parse_ws_frame buf ≡ panic → WrapsLength buf
panic-WrapsLength buf bytes p = elim (parse_ws_frame-Parsed buf bytes) [
  | asks_more e ↦ cc
  | answers q e ↦ cc
  | wraps_around e w ↦ w
]

-- How more bytes `b` are handled behind bytes `a` with this result: behind a panic there is nothing
-- more, and otherwise `b` is put behind what is left of `a`, unless the stream has been closed.
abbrev pub Joined : WsBridgeStream → ℕ → Bytes → Bytes → Result → Type 0
Joined s id a b (ok (t, calls)) =
    t.grpc_stream_id ≡ some id
    → (t ≡ with_buf s t.downstream_buf)
      × All IsByte (t.downstream_buf ++ b)
      × (length t.downstream_buf ≤ length a)
      × ((r : Result)
          → Processed s (t.downstream_buf ++ b) r
          → Processed s (a ++ b) (r >>= after calls))
Joined s id a b nothing = 1 ≤ 0
Joined s id a b panic = Processed s (a ++ b) panic
Joined s id a b stuck = 1 ≤ 0

takes-Joined :
    (s : WsBridgeStream) (id : ℕ) (a b payload : Bytes) (opcode n : ℕ) (later : Result)
    → parse_ws_frame (a ++ b) ≡ ok (opcode, payload, n)
    → opcode ≢ opcode_close
    → drop n (a ++ b) ≡ drop n a ++ b
    → Joined s id (drop n a) b later
    → Joined s id a b (later >>= after (reaction s.grpc_stream_id (frame_read opcode payload)))
takes-Joined s id a b payload opcode n (ok (t, calls)) e other cut joined = λ open_.
    let (same, bytes, fewer, k) = joined open_ in
    (
      same,
      bytes,
      omega (arith, fewer, length-drop n a),
      λ r p.
          subst (Processed s (a ++ b))
            (after-after r (reaction s.grpc_stream_id (frame_read opcode payload)) calls)
            (takes (a ++ b) payload opcode n (r >>= after calls) e other (rw cut (k r p))),
    )
takes-Joined s id a b payload opcode n nothing e other cut joined = joined
takes-Joined s id a b payload opcode n panic e other cut joined =
    takes (a ++ b) payload opcode n panic e other (rw cut joined)
takes-Joined s id a b payload opcode n stuck e other cut joined = joined

pub Processed-Joined :
    (s : WsBridgeStream) (id : ℕ) (a b : Bytes) (r : Result)
    → All IsByte (a ++ b)
    → Processed s a r
    → Joined s id a b r
Processed-Joined s id _ b _ bytes (waits a e) =
    λ open_. (refl, bytes, omega arith, λ r p. subst (Processed s (a ++ b)) (sym (after_none r)) p)
Processed-Joined s id _ b _ bytes (panics a e w) =
    let still : parse_ws_frame (a ++ b) ≡ panic = parse_ws_frame-append a b (λ q. cc) ∙ e in
    panics (a ++ b) still (panic-WrapsLength (a ++ b) bytes still)
Processed-Joined s id _ b _ bytes (closes a payload n e) = λ open_. cc
Processed-Joined s id _ b _ bytes (takes a payload opcode n later e other p) =
    let bounds = parse_ws_frame_takes a opcode payload n e in
    let cut : drop n (a ++ b) ≡ drop n a ++ b = drop-append_le n a b (omega (arith, bounds)) in
    takes-Joined s id a b payload opcode n later (parse_ws_frame-append a b (λ q. cc) ∙ e) other cut
      (Processed-Joined s id (drop n a) b later
        (subst (All IsByte) cut (All-drop IsByte n (a ++ b) bytes)) p)

-- A result that does not close the gRPC stream with this token.
abbrev pub StaysOpen : ℕ → Result → Type 0
StaysOpen id (ok r) = r.0.grpc_stream_id ≡ some id
StaysOpen id nothing = 0 ≤ 0
StaysOpen id panic = 0 ≤ 0
StaysOpen id stuck = 0 ≤ 0

-- The frames of `d` processed behind those that came before.
abbrev pub then_process : Bytes → WsBridgeStream × List Effect → Result
then_process d (t, calls) = process_ws_frames (with_buf t (t.downstream_buf ++ d)) >>= after calls

pub Joined-process_ws_frames :
    (s : WsBridgeStream) (id : ℕ) (a d : Bytes) (r : Result)
    → IsSlice (a ++ d)
    → Joined s id a d r
    → StaysOpen id r
    → process_ws_frames (with_buf s (a ++ d)) ≡ (r >>= then_process d)
unfolding process_ws_frames
Joined-process_ws_frames s id a d (ok (t, calls)) small joined open_ =
    let (same, bytes, fewer, k) = joined open_ in
    let rest : Bytes = t.downstream_buf ++ d in
    let fits : IsSlice rest =
      omega (arith, fewer, length-append a d, length-append t.downstream_buf d) in
    let later = process_loop (suc (length rest)) (with_buf s rest) in
    let processed : Processed s rest later =
      process_loop-Processed (suc (length rest)) s rest (omega arith) fits bytes in
    Processed-process_loop _ s (a ++ d) (later >>= after calls) (k later processed) (omega arith)
      small
    ∙ ap (λ u. process_loop (suc (length rest)) (with_buf u rest) >>= after calls) (sym same)
Joined-process_ws_frames s id a d nothing small joined open_ = absurd (omega (arith, joined))
Joined-process_ws_frames s id a d panic small joined open_ =
    Processed-process_loop _ s (a ++ d) panic joined (omega arith) small
Joined-process_ws_frames s id a d stuck small joined open_ = absurd (omega (arith, joined))
