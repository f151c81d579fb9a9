-- ===== src/Ws/Stream/Deliver.antt =====
-- `on_grpc_stream_message` of wasm/src/lib.rs on the messages that a server sends.
use grpcgi.Base.{◌≡◌, List, [], ◌∷◌, All, false, some, ok, if◌then◌else◌}
use grpcgi.Base.Machine.{IsSlice}
use grpcgi.Wire.Fields.{Field, IsField, message_bytes}
use grpcgi.Ws.FrameCodec.Rfc6455.{frame_bytes}
use grpcgi.Ws.FrameCodec.Encode.{server_frame, encode_ws_frame-frame_bytes}
use grpcgi.Ws.FrameProto.Arm.{apply_fields}
use grpcgi.Ws.FrameProto.Decode.{decode_frame_proto-message_bytes}
use grpcgi.Ws.Stream.{set_downstream_data, deliver, on_grpc_stream_message}

-- A well-formed message of the gRPC stream reaches the client as one unmasked final frame with the
-- message's payload: a binary frame if its flag says so, and a text frame otherwise.
pub on_grpc_stream_message-frame_bytes :
    (fs : List Field)
    → All IsField fs
    → IsSlice (message_bytes fs)
    → IsSlice (apply_fields fs ([], false)).0
    → let frame = apply_fields fs ([], false) in
      on_grpc_stream_message (some (message_bytes fs))
      ≡ ok (
          set_downstream_data (frame_bytes (server_frame (if frame.1 then 0x02 else 0x01) frame.0))
          ∷ [])
unfolding on_grpc_stream_message deliver
on_grpc_stream_message-frame_bytes fs valid small fits =
    let frame = apply_fields fs ([], false) in
    rw (
      decode_frame_proto-message_bytes fs valid small,
      encode_ws_frame-frame_bytes (if frame.1 then 0x02 else 0x01) frame.0 fits,
    )
