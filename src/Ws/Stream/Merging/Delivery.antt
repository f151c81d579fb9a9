-- ===== src/Ws/Stream/Merging/Delivery.antt =====
-- Chunks of any bytes in the active state of the stream context of wasm/src/lib.rs.
use grpcgi.Base.{List}
use grpcgi.Base.{Outcome, ok, ◌>>=◌}
use grpcgi.Base.Host.{Action, pause}
use grpcgi.Base.Machine.{Bytes}
use grpcgi.Base.Text.{Text}
use grpcgi.Ws.FrameCodec.Panic.{}
use grpcgi.Ws.Stream.{WsBridgeStream, Effect, after}
use grpcgi.Ws.Stream.Chunks.{deliver_chunks}
use grpcgi.Ws.Stream.Merging.{Result}

abbrev then_pause : WsBridgeStream × List Effect → Outcome (WsBridgeStream × List Effect × Action)
then_pause (t, calls) = ok (t, calls, pause)

module _ (unicode_lowercase : Text → Text) where
  -- The chunks `cs` delivered behind those that came before.
  abbrev then_deliver : List Bytes → WsBridgeStream × List Effect → Result
  then_deliver cs (t, calls) = deliver_chunks unicode_lowercase t cs >>= after calls
