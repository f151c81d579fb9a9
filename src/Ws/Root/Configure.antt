-- ===== src/Ws/Root/Configure.antt =====
-- The configuration of the WebSocket filter of wasm/src/lib.rs, and the streams made with it.
use grpcgi.Base.{◌≡◌, refl, ap, ◌∙◌, true, arith, List, [], ◌∷◌, All, ◌>>=◌, ok, some, inl, inr}
use grpcgi.Base.{Bool, Option, none, Outcome}
use grpcgi.Base.Machine.{Bytes}
use grpcgi.Base.Text.{Text, ascii}
use grpcgi.Base.Utf8.{is_utf8}
use grpcgi.Http.Json.Flat.{Member, IsMember, IsKey, object_text, lookup, lookup_or, lookup_cases}
use grpcgi.Http.Json.Flat.Read.{json_str_field-object_text}
use grpcgi.Ws.Json.{extract_json_string}
use grpcgi.Ws.Json.Same.{extract_json_string_same}
use grpcgi.Ws.Stream.{WsBridgeStream, awaiting_upgrade_request}
use grpcgi.Ws.Root.{WsBridgeRoot, or_old, read_config, on_configure, create_stream_context}

or_old-lookup :
    (fallback key : Text) (ms : List Member)
    → or_old (lookup key ms) fallback ≡ ok (lookup_or fallback key ms)
or_old-lookup fallback key ms = elim (lookup_cases fallback key ms) [
  | inl (missing, same) ↦ rw (missing, same)
  | inr found ↦ rw found
]

read_field :
    (fallback key : Text) (m : Member) (ms : List Member)
    → IsKey key
    → All (IsMember key) (m ∷ ms)
    → or_old (extract_json_string (object_text m ms) key) fallback
      ≡ ok (lookup_or fallback key (m ∷ ms))
read_field fallback key m ms valid all =
    ap (λ o. or_old o fallback)
      (extract_json_string_same (object_text m ms) key
        ∙ json_str_field-object_text key m ms valid all)
    ∙ or_old-lookup fallback key (m ∷ ms)

-- A configuration, and a stream that is made after it.
abbrev pub configured_stream : WsBridgeRoot → Option Bytes → Outcome (WsBridgeStream × Bool)
configured_stream root config = do
  configured ← on_configure root config
  ok (create_stream_context configured.0, configured.1)

-- After a configuration that is a flat object of strings in UTF-8, a new stream has the object's
-- cluster and service, or those of before where the object has none, and waits for the upgrade
-- request, with any number of spaces in front of and behind every key and every value of the object.
-- Strings hold no quotation mark, and no value is spelled like one of the two keys.
pub create_stream_context-on_configure :
    (root : WsBridgeRoot) (m : Member) (ms : List Member)
    → is_utf8 (object_text m ms) ≡ true
    → All (IsMember (ascii "grpc_cluster")) (m ∷ ms)
    → All (IsMember (ascii "grpc_service")) (m ∷ ms)
    → configured_stream root (some (object_text m ms))
      ≡ ok (
        record {
          state = awaiting_upgrade_request;
          downstream_buf = [];
          grpc_stream_id = none;
          upgrade_headers = [];
          grpc_cluster = lookup_or root.grpc_cluster (ascii "grpc_cluster") (m ∷ ms);
          grpc_service = lookup_or root.grpc_service (ascii "grpc_service") (m ∷ ms);
        },
        true,
      )
unfolding on_configure read_config create_stream_context
create_stream_context-on_configure root m ms text cluster service =
    rw
      (
        text,
        read_field root.grpc_cluster (ascii "grpc_cluster") m ms (omega arith) cluster,
        read_field root.grpc_service (ascii "grpc_service") m ms (omega arith) service,
      )
      refl
