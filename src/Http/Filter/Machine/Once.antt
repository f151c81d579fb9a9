-- ===== src/Http/Filter/Machine/Once.antt =====
-- What every run of the filter of wasm/http-bridge/src/lib.rs keeps to.
use grpcgi.Base.{ℕ, ◌≡◌, ◌⊎◌, Bool, true, false, List}
use grpcgi.Base.{none, Outcome, ok, nothing, panic, stuck}
use grpcgi.Http.Filter.{HttpBridgeFilter, Effect}
use grpcgi.Http.Filter.Machine.{dispatches}

abbrev dispatches_of : Outcome (List Effect) → ℕ
dispatches_of (ok calls) = dispatches calls
dispatches_of nothing = 0
dispatches_of panic = 0
dispatches_of stuck = 0

-- What holds of the numbers of calls, of responses and of answers to the own call. Once the call has
-- been made, no body is waited for any more.
abbrev Inv : Bool → ℕ → ℕ → ℕ → HttpBridgeFilter → Type 0
Inv false own d r s =
    (d ≡ 0) × (r ≡ 0) × (own ≡ 0) × (s.call_token ≡ none) × (s.body_pending ≡ false)
Inv true own d r s =
    (r ≡ own) × (((d ≡ 1) × (s.body_pending ≡ false)) ⊎ ((d ≡ 0) × (r ≡ 0) × (s.call_token ≡ none)))
