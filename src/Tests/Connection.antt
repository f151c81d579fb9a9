-- ===== src/Tests/Connection.antt =====
-- An upgrade request and a whole connection of the WebSocket filter.
use grpcgi.Base.{◌≡◌, refl, arith, true, List, [], ◌∷◌, ◌++◌, All, take, drop, map, some, ok}
use grpcgi.Base.Machine.{Bytes}
use grpcgi.Base.Text.{ascii}
use grpcgi.Base.Utf8.{is_utf8, is_utf8_loop, chunk, lead, continues}
use grpcgi.Wire.Varint.{groups}
use grpcgi.Wire.Fields.{Field, len_field, varint_field}
use grpcgi.Ws.Root.{initial_root, create_stream_context}
use grpcgi.Ws.FrameCodec.Rfc6455.{Frame, length_bytes, frame_bytes}
use grpcgi.Ws.FrameCodec.Encode.{server_frame}
use grpcgi.Ws.Upgrade.{parse_http_request_headers}
use grpcgi.Ws.Upgrade.Rfc7230.{RequestHead, IsRequestHead, head_bytes}
use grpcgi.Ws.Upgrade.Parse.{head_headers, parse_http_request_headers-head_bytes}
use grpcgi.Ws.Stream.{Effect, close_grpc_stream, switching_protocols, process_ws_frames}
use grpcgi.Ws.Stream.Frames.{stream_bytes, with_buf, reactions, IsOpenFrame}
use grpcgi.Ws.Stream.Closing.{process_ws_frames-close, with_no_stream}
use grpcgi.Ws.Stream.Total.{Processed, process_ws_frames-Processed}
use grpcgi.Ws.Stream.Machine.{upstream, initial_metadata, closed}
use grpcgi.Ws.Stream.Connection.{goodbye}
use grpcgi.Ws.Stream.Interleaving.{IsArrival}
use grpcgi.Ws.Stream.Machine.Runs.{run, chunk_events}
use grpcgi.Ws.Stream.Connection.{served, connect, run-connection}
use grpcgi.Ws.Stream.Interleaving.{
  Arrival, from_client, from_server, event_of, deliveries, Interleaving, run-arrivals,
}
use grpcgi.Ws.FrameCodec.{}
use grpcgi.Ws.Stream.{}
use grpcgi.Tests.Stream.{same_text, open_stream, text_and_ping}

abbrev chat_head : RequestHead
chat_head = record {
  method = ascii "GET";
  path = ascii "/chat";
  version = ascii "HTTP/1.1";
  fields = record { name = ascii "Host"; gap = 1; value = ascii "a.b" } ∷ [];
}

chat_head-IsRequestHead : IsRequestHead chat_head
chat_head-IsRequestHead = record {
  method_space = omega arith;
  method_line = omega arith;
  path_space = omega arith;
  path_line = omega arith;
  version_line = omega arith;
  fields_valid = (
    record {
      name_trimmed = omega arith;
      name_colon = omega arith;
      name_line = omega arith;
      value_trimmed = omega arith;
      value_line = omega arith;
    },
    tt,
  );
}

chat_head-is_utf8 : is_utf8 (head_bytes chat_head) ≡ true
unfolding is_utf8 is_utf8_loop chunk lead continues
chat_head-is_utf8 = refl

parse_http_request_headers-head_bytes_example :
    parse_http_request_headers same_text (head_bytes chat_head) ≡ head_headers same_text chat_head
parse_http_request_headers-head_bytes_example =
    parse_http_request_headers-head_bytes same_text chat_head chat_head-IsRequestHead
      chat_head-is_utf8

-- The request in two chunks, with a byte too many in the second.
abbrev first_part : Bytes
first_part = take 20 (head_bytes chat_head)

abbrev second_part : Bytes
second_part = drop 20 (head_bytes chat_head)

text_and_ping-IsOpenFrame : All IsOpenFrame text_and_ping
text_and_ping-IsOpenFrame =
    ((omega arith, λ e. omega (arith, e)), ((omega arith, λ e. omega (arith, e)), tt))

abbrev close_frame : Frame
close_frame = server_frame 8 (0x03 ∷ 0xe8 ∷ [])

process_ws_frames-close_example :
    process_ws_frames
      (with_buf open_stream (stream_bytes text_and_ping ++ (frame_bytes close_frame ++ 0x81 ∷ [])))
    ≡ ok (
      with_no_stream (with_buf open_stream (0x81 ∷ [])),
      reactions (some 7) text_and_ping ++ close_grpc_stream 7 ∷ [],
    )
process_ws_frames-close_example =
    process_ws_frames-close text_and_ping close_frame open_stream (0x81 ∷ [])
      text_and_ping-IsOpenFrame (omega arith) refl

-- A message of the server between the two chunks.
abbrev answer_fields : List Field
answer_fields = len_field 1 (ascii "yo") ∷ varint_field 2 1 ∷ []

abbrev mixed : List Arrival
mixed =
    from_client (take 1 (stream_bytes text_and_ping))
    ∷ from_server answer_fields
    ∷ from_client (drop 1 (stream_bytes text_and_ping))
    ∷ []

mixed-IsArrival : All IsArrival mixed
unfolding groups
mixed-IsArrival = (
  omega arith,
  (
    (
      (
        record { number_lt = omega arith; fits = omega arith },
        (record { number_lt = omega arith; fits = omega arith }, tt),
      ),
      omega arith,
      omega arith,
    ),
    (omega arith, tt),
  ),
)

run-connection_example :
    (calls : List Effect) × (run same_text (create_stream_context initial_root) (
        chunk_events ((first_part ∷ []) ++ second_part ∷ [])
        ++ upstream (some ([] ++ (switching_protocols ++ ascii " OK"))) (some 7)
          ∷ initial_metadata 7
          ∷ (map event_of mixed ++ closed ∷ []))
      ≡ ok (
        with_no_stream (served same_text initial_root chat_head 7),
        connect same_text initial_root chat_head ∷ (calls ++ goodbye ∷ []),
      ))
    × Interleaving (reactions (some 7) text_and_ping) (deliveries mixed) calls
unfolding length_bytes
run-connection_example =
    run-connection same_text initial_root chat_head 7 (first_part ∷ []) second_part [] [] []
      (ascii " OK") mixed text_and_ping chat_head-IsRequestHead chat_head-is_utf8 refl (omega arith)
      mixed-IsArrival text_and_ping-IsOpenFrame refl

run-arrivals_example :
    (all : List Effect) × (run same_text open_stream (map event_of mixed) ≡ ok (open_stream, all))
    × Interleaving (reactions (some 7) text_and_ping) (deliveries mixed) all
unfolding length_bytes
run-arrivals_example =
    run-arrivals same_text mixed text_and_ping open_stream refl refl mixed-IsArrival
      text_and_ping-IsOpenFrame refl

process_ws_frames-Processed_example :
    Processed
      (with_buf open_stream (0x88 ∷ 0x00 ∷ 0x81 ∷ []))
      (0x88 ∷ 0x00 ∷ 0x81 ∷ [])
      (process_ws_frames (with_buf open_stream (0x88 ∷ 0x00 ∷ 0x81 ∷ [])))
process_ws_frames-Processed_example =
    process_ws_frames-Processed (with_buf open_stream (0x88 ∷ 0x00 ∷ 0x81 ∷ [])) (omega arith)
      (omega arith, (omega arith, (omega arith, tt)))
