-- ===== src/Ws/Stream.antt =====
-- The stream context `WsBridgeStream` of wasm/src/lib.rs. What Envoy answers to a call that reads
-- (`get_downstream_data`, `get_upstream_data`, `get_grpc_stream_message`, `open_grpc_stream`) is an
-- argument of the handler; each call that writes is an `Effect`, in the order of the calls.
pub mod Frames
pub mod Cut
pub mod Chunks
pub mod Machine
pub mod Deliver
pub mod HeaderEnd
pub mod Gather
pub mod Closing
pub mod Connection
pub mod Interleaving
pub mod Total
pub mod Merging
use grpcgi.Base.{
  ℕ, zero, suc, ◌+◌, Bool, true, false, List, [], ◌∷◌, ◌++◌, length, take, ◌==◌, ◌||◌,
}
use grpcgi.Base.{if◌then◌else◌, Option, none, some, Outcome, ok, nothing, panic, stuck, ◌>>=◌}
use grpcgi.Base.Host.{Action, continue, pause}
use grpcgi.Base.Machine.{Bytes, slice_from}
use grpcgi.Base.Text.{Text, ascii}
use grpcgi.Ws.FrameCodec.{parse_ws_frame, encode_ws_frame}
use grpcgi.Ws.FrameProto.{encode_frame_proto, decode_frame_proto}
use grpcgi.Ws.Search.{find_subsequence, contains_subsequence}
use grpcgi.Ws.Upgrade.{Header, parse_http_request_headers}

pub data State : Type 0 where
  awaiting_upgrade_request awaiting_upgrade_response active : State

pub record WsBridgeStream : Type 0 where
  pub state : State
  pub downstream_buf : Bytes
  pub grpc_stream_id : Option ℕ
  pub upgrade_headers : List Header
  pub grpc_cluster : Text
  pub grpc_service : Text

-- The calls of Envoy that change something outside the filter. `set_downstream_data` always has
-- offset 0 and size 0, and a message never ends the stream.
pub data Effect : Type 0 where
  set_downstream_data : Bytes → Effect
  open_grpc_stream : Text → Text → Text → List Header → Effect
  send_grpc_stream_message : ℕ → Bytes → Bool → Effect
  close_grpc_stream : ℕ → Effect

-- A data frame goes to the gRPC stream, if one is open.
unfoldable pub send_frame : Option ℕ → Bytes → Bool → List Effect
send_frame none payload binary = []
send_frame (some stream_id) payload binary =
    send_grpc_stream_message stream_id (encode_frame_proto payload binary) false ∷ []

unfoldable pub close_stream : Option ℕ → List Effect
close_stream none = []
close_stream (some stream_id) = close_grpc_stream stream_id ∷ []

-- The `match opcode`; the flag says that the loop is left by `break`.
unfoldable pub handle_frame : WsBridgeStream → ℕ → Bytes → WsBridgeStream × List Effect × Bool
handle_frame s opcode payload =
    if opcode == 0x01 || opcode == 0x02
    then (s, send_frame s.grpc_stream_id payload (opcode == 0x02), false)
    else if opcode == 0x08
    then (record s { grpc_stream_id = none }, close_stream s.grpc_stream_id, true)
    else if opcode == 0x09
    then (s, set_downstream_data (encode_ws_frame 0x0a payload) ∷ [], false)
    else (s, [], false)

-- Calls made before others.
abbrev pub after : {A : Type 0} → List Effect → A × List Effect → Outcome (A × List Effect)
after before (a, later) = ok (a, before ++ later)

-- How a round of the loop ends: by `break`, or with another round to come.
pub data Round : Type 0 where
  stop again : WsBridgeStream → List Effect → Round

unfoldable pub round_end : WsBridgeStream × List Effect × Bool → Round
round_end (s, calls, true) = stop s calls
round_end (s, calls, false) = again s calls

-- The `match result`. `drain(..consumed)` panics past the end of the buffer.
unfoldable pub match_result : WsBridgeStream → Outcome (ℕ × Bytes × ℕ) → Outcome Round
match_result s nothing = ok (stop s [])
match_result s panic = panic
match_result s stuck = stuck
match_result s (ok (opcode, payload, consumed)) = do
  rest ← slice_from s.downstream_buf consumed
  ok (round_end (handle_frame (record s { downstream_buf = rest }) opcode payload))

unfoldable pub process_round : WsBridgeStream → Outcome Round
process_round s = match_result s (parse_ws_frame s.downstream_buf)

-- The loop of `process_ws_frames`, for as many rounds as the fuel says.
unfoldable pub process_loop : ℕ → WsBridgeStream → Outcome (WsBridgeStream × List Effect)
process_loop zero s = stuck
process_loop (suc fuel) s = process_round s >>= elim [
  | stop s' calls ↦ ok (s', calls)
  | again s' calls ↦ process_loop fuel s' >>= after calls
]

-- Each frame takes two bytes at least.
unfoldable pub process_ws_frames : WsBridgeStream → Outcome (WsBridgeStream × List Effect)
process_ws_frames s = process_loop (suc (length s.downstream_buf)) s

abbrev pub header_end : Bytes
header_end = b'\r' ∷ b'\n' ∷ b'\r' ∷ b'\n' ∷ []

abbrev pub switching_protocols : Bytes
switching_protocols = ascii "HTTP/1.1 101"

module _ (unicode_lowercase : Text → Text) where
  -- `if let Some(end)`
  unfoldable pub headers_up_to : WsBridgeStream → Outcome ℕ → Outcome WsBridgeStream
  headers_up_to s nothing = ok s
  headers_up_to s panic = panic
  headers_up_to s stuck = stuck
  headers_up_to s (ok end) = ok (record s {
    upgrade_headers =
        parse_http_request_headers unicode_lowercase (take (end + 4) s.downstream_buf);
    downstream_buf = [];
    state = awaiting_upgrade_response;
  })

  -- The end of the headers is looked for in all that has been gathered.
  unfoldable pub gather_request : WsBridgeStream → Outcome WsBridgeStream
  gather_request s = headers_up_to s (find_subsequence s.downstream_buf header_end)

  abbrev pub append_chunk : WsBridgeStream → Bytes → WsBridgeStream
  append_chunk s chunk = record s { downstream_buf = s.downstream_buf ++ chunk }

  -- `on_downstream_data`, by state and by what `get_downstream_data` answers.
  unfoldable pub downstream_in :
      State → Option Bytes → WsBridgeStream → Outcome (WsBridgeStream × List Effect × Action)
  downstream_in awaiting_upgrade_request none s = ok (s, [], continue)
  downstream_in awaiting_upgrade_request (some chunk) s = do
    s' ← gather_request (append_chunk s chunk)
    ok (s', [], continue)
  downstream_in awaiting_upgrade_response _ s = ok (s, [], continue)
  downstream_in active none s = ok (s, [], pause)
  downstream_in active (some chunk) s = do
    r ← process_ws_frames (append_chunk s chunk)
    ok (r.0, r.1, pause)

  unfoldable pub on_downstream_data :
      WsBridgeStream → Option Bytes → Outcome (WsBridgeStream × List Effect × Action)
  on_downstream_data s chunk = downstream_in s.state chunk s

-- What `open_grpc_stream` answers: the token, or an error that is only logged.
abbrev pub opened_id : Option ℕ → Option ℕ → Option ℕ
opened_id none before = before
opened_id (some token_id) before = some token_id

-- The response is looked for in one chunk; `opened` is the answer of `open_grpc_stream`.
unfoldable pub switch_protocols :
    Option ℕ → Bool → WsBridgeStream → WsBridgeStream × List Effect × Action
switch_protocols opened false s = (s, [], continue)
switch_protocols opened true s = (
  record s { state = active; grpc_stream_id = opened_id opened s.grpc_stream_id },
  open_grpc_stream s.grpc_cluster s.grpc_service (ascii "Connect") s.upgrade_headers ∷ [],
  continue,
)

unfoldable pub upstream_in :
    State
    → Option Bytes
    → Option ℕ
    → WsBridgeStream
    → Outcome (WsBridgeStream × List Effect × Action)
upstream_in awaiting_upgrade_response none opened s = ok (s, [], continue)
upstream_in awaiting_upgrade_response (some chunk) opened s = do
  found ← contains_subsequence chunk switching_protocols
  ok (switch_protocols opened found s)
upstream_in active _ opened s = ok (s, [], pause)
upstream_in awaiting_upgrade_request _ opened s = ok (s, [], continue)

unfoldable pub on_upstream_data :
    WsBridgeStream → Option Bytes → Option ℕ → Outcome (WsBridgeStream × List Effect × Action)
on_upstream_data s chunk opened = upstream_in s.state chunk opened s

unfoldable pub on_grpc_stream_initial_metadata : WsBridgeStream → ℕ → WsBridgeStream
on_grpc_stream_initial_metadata s token_id = record s { grpc_stream_id = some token_id }

-- A message that cannot be decoded is dropped.
unfoldable pub deliver : Outcome (Bytes × Bool) → Outcome (List Effect)
deliver nothing = ok []
deliver panic = panic
deliver stuck = stuck
deliver (ok (payload, binary)) =
    ok (set_downstream_data (encode_ws_frame (if binary then 0x02 else 0x01) payload) ∷ [])

-- So is one that cannot be read.
unfoldable pub on_grpc_stream_message : Option Bytes → Outcome (List Effect)
on_grpc_stream_message none = ok []
on_grpc_stream_message (some message) = deliver (decode_frame_proto message)

unfoldable pub on_grpc_stream_close : WsBridgeStream → WsBridgeStream × List Effect
on_grpc_stream_close s = (
  record s { grpc_stream_id = none },
  set_downstream_data (encode_ws_frame 0x08 (0x03 ∷ 0xe8 ∷ [])) ∷ [],
)
