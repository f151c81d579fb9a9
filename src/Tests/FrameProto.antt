-- ===== src/Tests/FrameProto.antt =====
-- The codec of the `Frame` message.
use grpcgi.Base.{◌^◌, ◌<◌, ◌≡◌, refl, arith, true, false, List, [], ◌∷◌, ◌++◌, length, ok}
use grpcgi.Base.{stuck, lt_wf, dec_lt}
use grpcgi.Base.Text.{ascii}
use grpcgi.Wire.Varint.{groups}
use grpcgi.Wire.Fields.{Field, varint_field, len_field, fixed32_field, message_bytes}
use grpcgi.Ws.Varint.{write_varint, write_varint_loop, read_varint, read_varint_loop}
use grpcgi.Ws.FrameProto.{encode_frame_proto, decode_frame_proto, decode_loop, decode_round}
use grpcgi.Ws.FrameProto.{decode_arm, field_end}
use grpcgi.Ws.FrameProto.Decode.{decode_frame_proto-message_bytes}
use grpcgi.Ws.FrameProto.RoundTrip.{frame_fields, encode_frame_proto-message_bytes}
use grpcgi.Ws.FrameProto.RoundTrip.{decode-encode_frame_proto}
use grpcgi.Base.{some}
use grpcgi.Ws.FrameCodec.Rfc6455.{frame_bytes}
use grpcgi.Ws.FrameCodec.Encode.{server_frame}
use grpcgi.Ws.Stream.{set_downstream_data, on_grpc_stream_message}
use grpcgi.Ws.Stream.Deliver.{on_grpc_stream_message-frame_bytes}
use grpcgi.Ws.FrameProto.Wrap.{len_header, decode_frame_proto_hangs}

known_text : encode_frame_proto (ascii "hi") false ≡ 0x0a ∷ 0x02 ∷ ascii "hi"
unfolding encode_frame_proto write_varint write_varint_loop lt_wf dec_lt
known_text = refl

known_binary : encode_frame_proto (ascii "hi") true ≡ 0x0a ∷ 0x02 ∷ (ascii "hi" ++ 0x10 ∷ 0x01 ∷ [])
unfolding encode_frame_proto write_varint write_varint_loop lt_wf dec_lt
known_binary = refl

decoded_binary :
    decode_frame_proto (0x0a ∷ 0x02 ∷ (ascii "hi" ++ 0x10 ∷ 0x01 ∷ [])) ≡ ok (ascii "hi", true)
unfolding decode_frame_proto decode_loop decode_round decode_arm field_end read_varint
    read_varint_loop
decoded_binary = refl

-- An unknown field, a payload, a later payload and a flag.
abbrev mixed : List Field
mixed =
    fixed32_field 9 (1 ∷ 2 ∷ 3 ∷ 4 ∷ [])
    ∷ len_field 1 (ascii "old")
    ∷ len_field 1 (ascii "new")
    ∷ varint_field 2 1
    ∷ []

mixed_IsSlice : length (message_bytes mixed) < 2 ^ 31
unfolding groups
mixed_IsSlice = omega arith

decode_frame_proto-message_bytes_example :
    decode_frame_proto (message_bytes mixed) ≡ ok (ascii "new", true)
decode_frame_proto-message_bytes_example =
    decode_frame_proto-message_bytes mixed
      (omega arith, (omega arith, (omega arith, (omega arith, tt)))) mixed_IsSlice

encode_frame_proto-message_bytes_example :
    encode_frame_proto (ascii "hi") true ≡ message_bytes (frame_fields (ascii "hi") true)
encode_frame_proto-message_bytes_example =
    encode_frame_proto-message_bytes (ascii "hi") true (omega arith)

decode-encode_frame_proto_example :
    decode_frame_proto (encode_frame_proto (ascii "hi") true) ≡ ok (ascii "hi", true)
decode-encode_frame_proto_example =
    decode-encode_frame_proto (ascii "hi") true (omega arith) (rw known_binary (omega arith))

-- The length 2^32 - 6 takes five bytes, and the tag of field 3 one.
hanging_header : len_header 3 4294967290 ≡ 0x1a ∷ 0xfa ∷ 0xff ∷ 0xff ∷ 0xff ∷ 0x0f ∷ []
unfolding groups
hanging_header = refl

decode_frame_proto_hangs_example :
    decode_loop 1000 (len_header 3 4294967290 ++ []) 0 [] false ≡ stuck
decode_frame_proto_hangs_example =
    decode_frame_proto_hangs 3 4294967290 1000 [] (omega arith) (omega arith) (omega arith)
      (rw hanging_header (omega arith)) (rw hanging_header (omega arith))

on_grpc_stream_message-frame_bytes_example :
    on_grpc_stream_message (some (message_bytes mixed))
    ≡ ok (set_downstream_data (frame_bytes (server_frame 2 (ascii "new"))) ∷ [])
on_grpc_stream_message-frame_bytes_example =
    on_grpc_stream_message-frame_bytes mixed
      (omega arith, (omega arith, (omega arith, (omega arith, tt)))) mixed_IsSlice (omega arith)
