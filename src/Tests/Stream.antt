-- ===== src/Tests/Stream.antt =====
-- The stream context of the WebSocket filter.
use grpcgi.Base.{◌≡◌, refl, List, [], ◌∷◌, ◌++◌, some}
use grpcgi.Base.{nothing}
use grpcgi.Base.Text.{Text, ascii}
use grpcgi.Ws.FrameCodec.{parse_ws_frame, payload_length, take_payload}
use grpcgi.Ws.FrameCodec.Rfc6455.{Frame}
use grpcgi.Ws.FrameCodec.Encode.{server_frame}
use grpcgi.Ws.Stream.{WsBridgeStream, active}
use grpcgi.Base.{none}
use grpcgi.Base.Machine.{Bytes}
use grpcgi.Ws.Upgrade.{Header}
use grpcgi.Ws.Stream.{awaiting_upgrade_request, awaiting_upgrade_response, Effect, open_grpc_stream}

abbrev pub same_text : Text → Text
same_text text = text

abbrev pub open_stream : WsBridgeStream
open_stream = record {
  state = active;
  downstream_buf = [];
  grpc_stream_id = some 7;
  upgrade_headers = [];
  grpc_cluster = ascii "grpcgi";
  grpc_service = ascii "grpcgi.v1.WebSocketBridge";
}

-- A text frame and a ping.
abbrev pub text_and_ping : List Frame
text_and_ping = server_frame 1 (ascii "hi") ∷ server_frame 9 (ascii "p") ∷ []

pub start_of_frame : parse_ws_frame (0x81 ∷ 0x84 ∷ 0x37 ∷ []) ≡ nothing
unfolding parse_ws_frame payload_length take_payload
start_of_frame = refl

abbrev pub new_stream : WsBridgeStream
new_stream = record open_stream { state = awaiting_upgrade_request; grpc_stream_id = none }

abbrev upgrade_request : Bytes
upgrade_request =
    ascii "GET /ws HTTP/1.1"
    ++ (b'\r' ∷ b'\n' ∷ (ascii "Host: a" ++ (b'\r' ∷ b'\n' ∷ b'\r' ∷ b'\n' ∷ [])))

abbrev captured : List Header
captured =
    (ascii ":method", ascii "GET") ∷ (ascii ":path", ascii "/ws") ∷ (ascii "host", ascii "a") ∷ []

abbrev asking_stream : WsBridgeStream
asking_stream = record new_stream { state = awaiting_upgrade_response; upgrade_headers = captured }

abbrev asked_stream : WsBridgeStream
asked_stream = record asking_stream { state = active; grpc_stream_id = some 7 }

abbrev the_open : Effect
the_open =
    open_grpc_stream (ascii "grpcgi") (ascii "grpcgi.v1.WebSocketBridge") (ascii "Connect") captured
