-- ===== src/Http/Root.antt =====
-- The root context `HttpBridgeRoot` of wasm/http-bridge/src/lib.rs. What
-- `get_plugin_configuration` answers is an argument.
pub mod Configure
use grpcgi.Base.{ℕ, Bool, true, [], Option, none, some, Outcome, ok, nothing, panic, stuck}
use grpcgi.Base.{false, ◌>>=◌}
use grpcgi.Base.Machine.{Bytes}
use grpcgi.Base.Text.{Text, ascii}
use grpcgi.Base.Utf8.{from_utf8_lossy}
use grpcgi.Http.Json.{json_str_field}
use grpcgi.Http.Filter.{HttpBridgeFilter}

pub record HttpBridgeRoot : Type 0 where
  pub cluster : Text
  pub authority : Text

-- The root that `main` makes.
abbrev pub default_root : HttpBridgeRoot
default_root = record { cluster = ascii "grpcgi"; authority = [] }

-- `if let Some(c) = … { self.… = c; }`, where `None` keeps the old value.
abbrev pub or_before : Outcome Text → Text → Outcome Text
or_before (ok text) before = ok text
or_before nothing before = ok before
or_before panic before = panic
or_before stuck before = stuck

unfoldable pub on_configure : HttpBridgeRoot → Option Bytes → Outcome (HttpBridgeRoot × Bool)
on_configure root none = ok (root, true)
on_configure root (some bytes) = do
  let s = from_utf8_lossy bytes
  cluster ← or_before (json_str_field s (ascii "cluster")) root.cluster
  authority ← or_before (json_str_field s (ascii "authority")) root.authority
  ok (record { cluster = cluster; authority = authority }, true)

unfoldable pub create_http_context : HttpBridgeRoot → ℕ → HttpBridgeFilter
create_http_context root context_id = record {
  context_id = context_id;
  cluster = root.cluster;
  authority = root.authority;
  call_token = none;
  req_headers = [];
  req_body = [];
  passthrough = false;
  body_pending = false;
}
