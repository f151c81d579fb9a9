-- ===== src/Ws/Stream/Frames.antt =====
-- `process_ws_frames` on a buffer that holds well-formed frames, and a piece of one behind them.
use grpcgi.Base.{ℕ, suc, ◌+◌, ◌-◌, ◌%◌, ◌≤◌, arith, ◌≡◌, ◌≢◌, refl, sym, ap, ◌∙◌}
use grpcgi.Base.{Bool, true, false, List, [], ◌∷◌, ◌++◌, length, length-append, append_assoc}
use grpcgi.Base.{append-nil, drop-append_self, if◌then◌else◌, ◌==◌, All, Option, none, some}
use grpcgi.Base.{Outcome, ok, nothing, panic, stuck, ◌>>=◌}
use native.Mathlib.Nat.{suc-add}
use grpcgi.Base.Machine.{Bytes, IsSlice, slice_from}
use grpcgi.Wire.Fields.{message_bytes}
use grpcgi.Ws.FrameCodec.{parse_ws_frame}
use grpcgi.Ws.FrameCodec.Rfc6455.{Frame, frame_bytes}
use grpcgi.Ws.FrameCodec.RoundTrip.{parse_ws_frame-frame_bytes}
use grpcgi.Ws.FrameCodec.Encode.{server_frame, encode_ws_frame-frame_bytes}
use grpcgi.Ws.FrameProto.RoundTrip.{frame_fields, encode_frame_proto-message_bytes}
use grpcgi.Ws.Stream.{WsBridgeStream, Effect, set_downstream_data, send_grpc_stream_message}
use grpcgi.Ws.Stream.{send_frame, handle_frame, after, process_loop, process_ws_frames}
use grpcgi.Ws.Stream.{process_round, match_result, round_end}

abbrev pub opcode_of : Frame → ℕ
opcode_of f = f.first % 16

abbrev pub opcode_close : ℕ
opcode_close = 0x08

-- One `Frame` message of the wire format for a data frame, where a gRPC stream is open.
abbrev pub forwarded : Option ℕ → Bytes → Bool → List Effect
forwarded none payload binary = []
forwarded (some stream_id) payload binary =
    send_grpc_stream_message stream_id (message_bytes (frame_fields payload binary)) false ∷ []

-- What a frame other than a close frame should lead to: data goes to the gRPC stream, a ping is
-- answered by a pong with its payload, and all else leads to nothing.
abbrev pub reaction : Option ℕ → Frame → List Effect
reaction id f =
    if opcode_of f == 0x01
    then forwarded id f.payload false
    else if opcode_of f == 0x02
    then forwarded id f.payload true
    else if opcode_of f == 0x09
    then set_downstream_data (frame_bytes (server_frame 0x0a f.payload)) ∷ []
    else []

abbrev pub reactions : Option ℕ → List Frame → List Effect
reactions id [] = []
reactions id (f ∷ fs) = reaction id f ++ reactions id fs

abbrev pub stream_bytes : List Frame → Bytes
stream_bytes [] = []
stream_bytes (f ∷ fs) = frame_bytes f ++ stream_bytes fs

-- Frames that do not close the connection, with payloads that fit a slice.
abbrev pub IsOpenFrame : Frame → Type 0
IsOpenFrame f = IsSlice f.payload × (opcode_of f ≢ opcode_close)

send_frame-forwarded :
    (id : Option ℕ) (payload : Bytes) (binary : Bool)
    → IsSlice payload
    → send_frame id payload binary ≡ forwarded id payload binary
unfolding send_frame
send_frame-forwarded none payload binary small = refl
send_frame-forwarded (some stream_id) payload binary small =
    rw (encode_frame_proto-message_bytes payload binary small)

-- `handle_frame` on a frame that does not close the connection.
pub handle_frame-reaction :
    (s : WsBridgeStream) (f : Frame)
    → IsOpenFrame f
    → handle_frame s (opcode_of f) f.payload ≡ (s, reaction s.grpc_stream_id f, false)
unfolding handle_frame
handle_frame-reaction s f (small, open_) = ground (
  arith,
  send_frame-forwarded s.grpc_stream_id f.payload false small,
  send_frame-forwarded s.grpc_stream_id f.payload true small,
  encode_ws_frame-frame_bytes 0x0a f.payload small,
)

abbrev pub with_buf : WsBridgeStream → Bytes → WsBridgeStream
with_buf s buf = record s { downstream_buf = buf }

pub drain_frame :
    (f : Frame) (rest : Bytes)
    → slice_from (frame_bytes f ++ rest) (length (frame_bytes f)) ≡ ok rest
drain_frame f rest =
    rw (drop-append_self (frame_bytes f) rest) (ground (arith, length-append (frame_bytes f) rest))

-- A round of the loop on a frame that does not close the connection.
process_loop-frame :
    (fuel : ℕ) (s : WsBridgeStream) (f : Frame) (rest : Bytes)
    → IsOpenFrame f
    → process_loop (suc fuel) (with_buf s (frame_bytes f ++ rest))
      ≡ (process_loop fuel (with_buf s rest) >>= after (reaction s.grpc_stream_id f))
unfolding process_loop process_round match_result round_end
process_loop-frame fuel s f rest valid = rw (
  parse_ws_frame-frame_bytes f rest valid.0,
  drain_frame f rest,
  handle_frame-reaction (with_buf s rest) f valid,
)

pub after-nil : (m : Outcome (WsBridgeStream × List Effect)) → (m >>= after []) ≡ m
after-nil (ok r) = refl
after-nil nothing = refl
after-nil panic = refl
after-nil stuck = refl

pub after-after :
    (m : Outcome (WsBridgeStream × List Effect)) (first second : List Effect)
    → ((m >>= after second) >>= after first) ≡ (m >>= after (first ++ second))
after-after (ok (s, calls)) first second =
    ap (λ (l : List Effect). ok (s, l)) (sym (append_assoc first second calls))
after-after nothing first second = refl
after-after panic first second = refl
after-after stuck first second = refl

-- The loop takes the frames at the front of the buffer one by one, and goes on behind them.
pub process_loop-stream_bytes :
    (fs : List Frame) (fuel : ℕ) (s : WsBridgeStream) (tail : Bytes)
    → All IsOpenFrame fs
    → process_loop (length fs + fuel) (with_buf s (stream_bytes fs ++ tail))
      ≡ (process_loop fuel (with_buf s tail) >>= after (reactions s.grpc_stream_id fs))
process_loop-stream_bytes [] fuel s tail valid =
    ap (λ (n : ℕ). process_loop n (with_buf s tail)) (omega arith) ∙ sym (after-nil _)
process_loop-stream_bytes (f ∷ fs) fuel s tail valid =
    rw (suc-add (length fs) fuel, append_assoc (frame_bytes f) (stream_bytes fs) tail)
      (process_loop-frame (length fs + fuel) s f (stream_bytes fs ++ tail) valid.0
        ∙ rw (process_loop-stream_bytes fs fuel s tail valid.1)
            (after-after _ (reaction s.grpc_stream_id f) (reactions s.grpc_stream_id fs)))

pub length-stream_bytes : (fs : List Frame) → length fs ≤ length (stream_bytes fs)
length-stream_bytes [] = omega arith
length-stream_bytes (f ∷ fs) =
    omega (arith, length-stream_bytes fs, length-append (frame_bytes f) (stream_bytes fs))

process_loop-incomplete :
    (fuel : ℕ) (s : WsBridgeStream) (tail : Bytes)
    → parse_ws_frame tail ≡ nothing
    → process_loop (suc fuel) (with_buf s tail) ≡ ok (with_buf s tail, [])
unfolding process_loop process_round match_result
process_loop-incomplete fuel s tail e = rw e

pub process_ws_frames-stream_bytes :
    (fs : List Frame) (s : WsBridgeStream) (tail : Bytes)
    → All IsOpenFrame fs
    → parse_ws_frame tail ≡ nothing
    → process_ws_frames (with_buf s (stream_bytes fs ++ tail))
      ≡ ok (with_buf s tail, reactions s.grpc_stream_id fs)
unfolding process_ws_frames
process_ws_frames-stream_bytes fs s tail valid incomplete =
    let buf : Bytes = stream_bytes fs ++ tail in
    let spare : ℕ = length buf - length fs in
    let fuel : suc (length buf) ≡ length fs + suc spare =
      omega (arith, length-stream_bytes fs, length-append (stream_bytes fs) tail) in
    rw fuel (
      process_loop-stream_bytes fs (suc spare) s tail valid
      ∙ rw (process_loop-incomplete spare s tail incomplete)
          (ap (λ (l : List Effect). ok (with_buf s tail, l)) (append-nil _)))
