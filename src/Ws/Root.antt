-- ===== src/Ws/Root.antt =====
-- The root context `WsBridgeRoot` of wasm/src/lib.rs. What `get_plugin_configuration` answers is an
-- argument.
pub mod Configure
use grpcgi.Base.{Bool, true, [], Option, none, some, Outcome, ok, nothing, panic, stuck}
use grpcgi.Base.{◌>>=◌, if◌then◌else◌}
use grpcgi.Base.Machine.{Bytes}
use grpcgi.Base.Text.{Text, ascii}
use grpcgi.Base.Utf8.{is_utf8}
use grpcgi.Ws.Json.{extract_json_string}
use grpcgi.Ws.Stream.{WsBridgeStream, awaiting_upgrade_request}

pub record WsBridgeRoot : Type 0 where
  pub grpc_cluster : Text
  pub grpc_service : Text

-- The root that `main` makes.
abbrev pub initial_root : WsBridgeRoot
initial_root = record {
  grpc_cluster = ascii "grpcgi_cluster";
  grpc_service = ascii "grpcgi.v1.WebSocketBridge";
}

-- `if let Some(v) = … { self.… = v; }`, where `None` keeps the old value.
abbrev pub or_old : Outcome Text → Text → Outcome Text
or_old (ok text) old = ok text
or_old nothing old = ok old
or_old panic old = panic
or_old stuck old = stuck

-- The two fields of the configuration.
unfoldable pub read_config : WsBridgeRoot → Text → Outcome WsBridgeRoot
read_config root config_str = do
  cluster ← or_old (extract_json_string config_str (ascii "grpc_cluster")) root.grpc_cluster
  service ← or_old (extract_json_string config_str (ascii "grpc_service")) root.grpc_service
  ok (record { grpc_cluster = cluster; grpc_service = service })

unfoldable pub on_configure : WsBridgeRoot → Option Bytes → Outcome (WsBridgeRoot × Bool)
on_configure root none = ok (root, true)
on_configure root (some config_bytes) = do
  configured ← if is_utf8 config_bytes then read_config root config_bytes else ok root
  ok (configured, true)

unfoldable pub create_stream_context : WsBridgeRoot → WsBridgeStream
create_stream_context root = record {
  state = awaiting_upgrade_request;
  downstream_buf = [];
  grpc_stream_id = none;
  upgrade_headers = [];
  grpc_cluster = root.grpc_cluster;
  grpc_service = root.grpc_service;
}
