-- ===== src/Tests/Config.antt =====
-- The configuration strings of both filters.
use grpcgi.Base.{◌≡◌, refl, arith, true, false, List, none, ok, some, [], ◌∷◌, ◌++◌}
use grpcgi.Base.Text.{Text, ascii, bytes_eq, find, starts_with, trim_start, trim_loop, strip_any}
use grpcgi.Base.Utf8.{is_utf8, is_utf8_loop, chunk, lead, continues}
use grpcgi.Http.Json.{json_str_field}
use grpcgi.Http.Json.Flat.{Member, object_text}
use grpcgi.Http.Json.Flat.Read.{json_str_field-object_text}
use grpcgi.Http.Root.{default_root}
use grpcgi.Http.Root.Configure.{configured_filter, create_http_context-on_configure}
use grpcgi.Ws.Root.{initial_root}
use grpcgi.Ws.Root.Configure.{configured_stream, create_stream_context-on_configure}
use grpcgi.Ws.Stream.{awaiting_upgrade_request}

-- `{"cluster" : "a"}`
abbrev config : Text
config = b'{' ∷ b'"' ∷ (ascii "cluster" ++ b'"' ∷ ascii " : " ++ b'"' ∷ b'a' ∷ b'"' ∷ b'}' ∷ [])

config_run : json_str_field config (ascii "cluster") ≡ ok (ascii "a")
unfolding json_str_field find starts_with trim_start trim_loop strip_any
config_run = refl

-- `{"mode":"cluster","x":"evil"}`: a value that is spelled like the key is taken for it, and the value
-- of the next member is read.
abbrev misread : Text
misread =
    b'{'
    ∷ b'"'
    ∷ (ascii "mode"
        ++ b'"'
          ∷ b':'
          ∷ b'"'
          ∷ (ascii "cluster"
              ++ b'"'
                ∷ b','
                ∷ b'"'
                ∷ b'x'
                ∷ b'"'
                ∷ b':'
                ∷ b'"'
                ∷ (ascii "evil" ++ b'"' ∷ b'}' ∷ [])))

misread_run : json_str_field misread (ascii "cluster") ≡ ok (ascii "evil")
unfolding json_str_field find starts_with trim_start trim_loop strip_any
misread_run = refl

-- A member with spaces.
abbrev a_member : Text → Text → Member
a_member key value = record {
  lead = 1;
  key = key;
  before_colon = 2;
  gap = 1;
  value = value;
  trail = 1;
}

abbrev cluster_member : Member
cluster_member = a_member (ascii "cluster") (ascii "a")

abbrev other_members : List Member
other_members = a_member (ascii "other") (ascii "b") ∷ []

abbrev service_member : Member
service_member = a_member (ascii "grpc_service") (ascii "S")

json_str_field-object_text_example :
    json_str_field (object_text cluster_member other_members) (ascii "cluster") ≡ ok (ascii "a")
unfolding bytes_eq
json_str_field-object_text_example =
    json_str_field-object_text (ascii "cluster") cluster_member other_members (omega arith) (
      record { key_plain = omega arith; value_plain = omega arith; value_other = λ e. cc },
      (record { key_plain = omega arith; value_plain = omega arith; value_other = λ e. cc }, tt),
    )

create_http_context-on_configure_example :
    configured_filter default_root 3 (some (object_text cluster_member other_members))
    ≡ ok (
      record {
        context_id = 3;
        cluster = ascii "a";
        authority = [];
        call_token = none;
        req_headers = [];
        req_body = [];
        passthrough = false;
        body_pending = false;
      },
      true,
    )
unfolding is_utf8 is_utf8_loop chunk lead continues bytes_eq
create_http_context-on_configure_example =
    create_http_context-on_configure default_root 3 cluster_member other_members refl
      (
        record { key_plain = omega arith; value_plain = omega arith; value_other = λ e. cc },
        (record { key_plain = omega arith; value_plain = omega arith; value_other = λ e. cc }, tt),
      )
      (
        record { key_plain = omega arith; value_plain = omega arith; value_other = λ e. cc },
        (record { key_plain = omega arith; value_plain = omega arith; value_other = λ e. cc }, tt),
      )

create_stream_context-on_configure_example :
    configured_stream initial_root (some (object_text service_member other_members))
    ≡ ok (
      record {
        state = awaiting_upgrade_request;
        downstream_buf = [];
        grpc_stream_id = none;
        upgrade_headers = [];
        grpc_cluster = ascii "grpcgi_cluster";
        grpc_service = ascii "S";
      },
      true,
    )
unfolding is_utf8 is_utf8_loop chunk lead continues bytes_eq
create_stream_context-on_configure_example =
    create_stream_context-on_configure initial_root service_member other_members refl
      (
        record { key_plain = omega arith; value_plain = omega arith; value_other = λ e. cc },
        (record { key_plain = omega arith; value_plain = omega arith; value_other = λ e. cc }, tt),
      )
      (
        record { key_plain = omega arith; value_plain = omega arith; value_other = λ e. cc },
        (record { key_plain = omega arith; value_plain = omega arith; value_other = λ e. cc }, tt),
      )
