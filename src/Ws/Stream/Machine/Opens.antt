-- ===== src/Ws/Stream/Machine/Opens.antt =====
-- Which gRPC streams a run of the stream context of wasm/src/lib.rs opens.
use grpcgi.Base.{zero, ◌≡◌, List, [], ◌++◌}
use grpcgi.Base.{Outcome, ok}
use grpcgi.Base.Text.{Text}
use grpcgi.Ws.Stream.{WsBridgeStream, Effect}
use grpcgi.Base.Host.{Action}
use grpcgi.Ws.Stream.Machine.{opens, opened_by}
use grpcgi.Ws.Stream.Machine.Quiet.{Quiet}

-- What a handler has opened accounts for what is open behind it.
abbrev Accounts : WsBridgeStream → WsBridgeStream → List Effect → Type 0
Accounts s s' calls = opened_by s' ≡ opened_by s ++ opens calls

abbrev AccountsFor : WsBridgeStream → Outcome (WsBridgeStream × List Effect × Action) → Type 0
AccountsFor s (ok r) = Accounts s r.0 r.1
AccountsFor s _ = zero ≡ zero

abbrev NoneOpen : Outcome WsBridgeStream → Type 0
NoneOpen (ok s) = opened_by s ≡ []
NoneOpen _ = zero ≡ zero

abbrev OpensNone : Outcome (List Effect) → Type 0
OpensNone (ok calls) = opens calls ≡ []
OpensNone _ = zero ≡ zero

abbrev AccountsOf : WsBridgeStream → Outcome (WsBridgeStream × List Effect) → Type 0
AccountsOf s (ok r) = Accounts s r.0 r.1
AccountsOf s _ = zero ≡ zero
