-- ===== src/Lib.antt =====
-- Models of the two proxy-wasm filters of grpcgi, which run inside Envoy and bridge it to the
-- grpcgi server over gRPC, and what is proved of them.
--
-- The program. wasm/src/lib.rs is a network filter: it watches a WebSocket upgrade pass, opens a
-- gRPC stream (grpcgi.v1.WebSocketBridge/Connect) and from then on turns the client's WebSocket
-- frames into `Frame` messages on that stream, and messages of the stream into frames for the
-- client. wasm/http-bridge/src/lib.rs is an HTTP filter: it sends a whole request as one unary call
-- (grpcgi.v1.HttpBridge/Handle) and answers the client with what comes back. The two share no code.
--
-- The files, each named for the part of the source that it models:
--   Ws/Root          WsBridgeRoot: on_configure, create_stream_context
--   Ws/Stream        WsBridgeStream: on_downstream_data, on_upstream_data, process_ws_frames,
--                    on_grpc_stream_initial_metadata, on_grpc_stream_message, on_grpc_stream_close
--   Ws/Stream/Machine  the callbacks in any order, as a step relation
--   Ws/FrameCodec    parse_ws_frame, encode_ws_frame
--   Ws/FrameProto    encode_frame_proto, decode_frame_proto, skip_field
--   Ws/Varint        write_varint, read_varint
--   Ws/Upgrade       parse_http_request_headers
--   Ws/Search        find_subsequence, contains_subsequence
--   Ws/Json          extract_json_string
--   Ws/UnitTests     the unit tests, as programs that panic where they fail
--   Http/Root        HttpBridgeRoot: on_configure, create_http_context
--   Http/Filter      HttpBridgeFilter: on_http_request_headers, on_http_request_body,
--                    dispatch_handle, on_grpc_call_response
--   Http/Proto       push_len_field, encode_http_request, decode_http_response, decode_header
--   Http/Varint      write_varint, read_varint
--   Http/Json        json_str_field
--   Wire             varints and messages of protobuf, as the specification that the codecs meet
--   Base             machine integers, slices, UTF-8, the str methods, results, lists
--   Tests            runs at concrete inputs
-- Below a component's file stand the files with its laws. What the code is held against is written
-- down apart from it: Ws/FrameCodec/Rfc6455 has WebSocket frames as RFC 6455 lays them out,
-- Ws/Upgrade/Rfc7230 the head of an HTTP request as RFC 7230 does, and Http/Json/Flat JSON objects
-- of strings.
--
-- How the parts are put together. Ws/Stream/Machine/Runs runs the callbacks of a stream one after
-- the other. Ws/Stream/Gather, Chunks, Closing and Deliver have what single callbacks do to chunks
-- of requests and frames, to close frames and to messages, and Ws/Stream/Total what they do to a
-- buffer of any bytes; Ws/Stream/Merging compares chunks with their joined bytes.
-- Ws/Stream/Interleaving has chunks and messages in any order, and Ws/Stream/Connection the course
-- of a connection. Http/Filter/Machine has the callbacks of a request in any order, but for the
-- headers, which come once; Http/Filter/Request, Actions and Passthrough are about a request, what
-- the filter answers in its course, and requests for a WebSocket; and Http/Filter/Exchange is a
-- request with its answer. Ws/Root/Configure and Http/Root/Configure go from a configuration to
-- the contexts made with it.
--
-- State and calls. A context is a record with the fields of its struct. A handler is a function of
-- the context; what Envoy answers to a call that reads, and what open_grpc_stream and
-- dispatch_grpc_call answer, are arguments, and each call that writes is an `Effect` in the list
-- that the handler returns, in the order of the calls. Logging is left out.
--
-- Numbers and errors. The filters are built for wasm32 in release mode: `usize` has 32 bits and its
-- arithmetic wraps. Wrap-around is written out where a value can reach 2^32; elsewhere a comment
-- says why it cannot. `Outcome` has the results of a function: a value (Some), `nothing` (None),
-- `panic` (a slice or an index out of bounds), and `stuck`, for a loop that runs out of fuel. Text is
-- the list of its UTF-8 bytes.
--
-- Fuel. process_ws_frames has one round more than its buffer has bytes. A frame takes two bytes at
-- least, so that this is enough on any buffer. The message decoders have as
-- many rounds as the message has bytes; a round takes a byte at least, so that the fuel is enough on
-- well-formed input, and the results say so by giving a value. Only lengths that wrap can make a
-- decoder's loop run longer. The varint writers recurse on the number itself.
--
-- Not modelled: get_type, logging, and str::to_lowercase on text that is not ASCII, which is a
-- parameter. The C++ filter in envoy-filter, the Python server in python, the demo, the .proto files
-- and the documents are outside the development.
pub mod Base
pub mod Wire
pub mod Http
pub mod Ws
mod Tests
