-- ===== src/Ws/Stream/Machine.antt =====
-- Every run of the stream context of wasm/src/lib.rs: the callbacks in any order.
pub mod Quiet
pub mod Opens
pub mod Runs
use grpcgi.Base.{ℕ, List, [], ◌∷◌, ◌++◌, Option, Outcome, ok, ◌>>=◌, ◌≡◌}
use grpcgi.Base.Machine.{Bytes}
use grpcgi.Base.Text.{Text, ascii}
use grpcgi.Ws.Upgrade.{Header}
use grpcgi.Ws.Stream.{State, active, awaiting_upgrade_request, awaiting_upgrade_response}
use grpcgi.Ws.Stream.{WsBridgeStream, Effect, open_grpc_stream, on_downstream_data}
use grpcgi.Ws.Stream.{on_upstream_data, on_grpc_stream_initial_metadata, on_grpc_stream_message}
use grpcgi.Ws.Stream.{on_grpc_stream_close}

pub data Event : Type 0 where
  downstream : Option Bytes → Event
  upstream : Option Bytes → Option ℕ → Event
  initial_metadata : ℕ → Event
  message : Option Bytes → Event
  closed : Event

-- A `Connect` call that the filter opens: its cluster, its service and its initial metadata.
abbrev pub Opened : Type 0
Opened = Text × Text × Text × List Header

abbrev pub opens : List Effect → List Opened
opens [] = []
opens (open_grpc_stream cluster service method headers ∷ calls) =
    (cluster, service, method, headers) ∷ opens calls
opens (_ ∷ calls) = opens calls

-- What has been opened when the stream is in this state.
abbrev pub opened_in : State → Text → Text → List Header → List Opened
opened_in active cluster service headers = (cluster, service, ascii "Connect", headers) ∷ []
opened_in awaiting_upgrade_request cluster service headers = []
opened_in awaiting_upgrade_response cluster service headers = []

-- One call with the configured service and the headers of the request, from the active state on.
abbrev pub opened_by : WsBridgeStream → List Opened
opened_by s = opened_in s.state s.grpc_cluster s.grpc_service s.upgrade_headers

-- The handler of an event.
unfoldable pub handle :
    (Text → Text) → WsBridgeStream → Event → Outcome (WsBridgeStream × List Effect)
handle unicode_lowercase s (downstream chunk) = do
  r ← on_downstream_data unicode_lowercase s chunk
  ok (r.0, r.1)
handle unicode_lowercase s (upstream chunk opened) = do
  r ← on_upstream_data s chunk opened
  ok (r.0, r.1)
handle unicode_lowercase s (initial_metadata token_id) =
    ok (on_grpc_stream_initial_metadata s token_id, [])
handle unicode_lowercase s (message m) = do calls ← on_grpc_stream_message m; ok (s, calls)
handle unicode_lowercase s closed = ok (on_grpc_stream_close s)

-- What can be reached from `start`, with all the calls made on the way. A callback that panics ends
-- the run.
pub data Reach (unicode_lowercase : Text → Text) (start : WsBridgeStream)
    : List Effect → WsBridgeStream → Type 0 where
  here : Reach unicode_lowercase start [] start
  step :
      (calls new : List Effect) (s s' : WsBridgeStream)
      → Reach unicode_lowercase start calls s
      → (e : Event) → handle unicode_lowercase s e ≡ ok (s', new)
      → Reach unicode_lowercase start (calls ++ new) s'
