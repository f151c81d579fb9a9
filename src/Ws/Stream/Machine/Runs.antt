-- ===== src/Ws/Stream/Machine/Runs.antt =====
-- Runs of the stream context of wasm/src/lib.rs: the handlers of given events, one after the other.
use grpcgi.Base.{
  ◌≡◌, refl, sym, ap, ◌∙◌, List, [], ◌∷◌, ◌++◌, map, some, Outcome, ok, nothing, panic, stuck,
  ◌>>=◌,
}
use grpcgi.Base.Machine.{Bytes}
use mathlib.Core.Path.{fun_ext}
use grpcgi.Base.Host.{Action}
use grpcgi.Base.Text.{Text}
use grpcgi.Ws.Stream.{WsBridgeStream, Effect, after, on_downstream_data}
use grpcgi.Ws.Stream.Frames.{after-nil, after-after}
use grpcgi.Ws.Stream.Chunks.{deliver_chunks}
use grpcgi.Ws.Stream.Machine.{Event, downstream, handle}

abbrev Result : Type 0
Result = Outcome (WsBridgeStream × List Effect)

-- One run behind another, with the calls of both.
infixl 5 ◌and_then◌
abbrev pub ◌and_then◌ : Result → (WsBridgeStream → Result) → Result
m and_then next = m >>= λ r. next r.0 >>= after r.1

then_after :
    (m : Result) (next : WsBridgeStream → Result) (calls : List Effect)
    → ((m and_then next) >>= after calls) ≡ ((m >>= after calls) and_then next)
then_after (ok (s, later)) next calls = after-after (next s) calls later
then_after nothing next calls = refl
then_after panic next calls = refl
then_after stuck next calls = refl

-- The events of chunks from the client.
abbrev pub chunk_events : List Bytes → List Event
chunk_events = map (λ (c : Bytes). downstream (some c))

module _ (unicode_lowercase : Text → Text) where
  unfoldable pub run : WsBridgeStream → List Event → Result
  run s [] = ok (s, [])
  run s (e ∷ es) = handle unicode_lowercase s e and_then (λ t. run t es)

  run-step :
      (m : Result) (es later : List Event)
      → ((s : WsBridgeStream) → run s (es ++ later) ≡ (run s es and_then (λ t. run t later)))
      → (m and_then (λ t. run t (es ++ later)))
        ≡ ((m and_then (λ t. run t es)) and_then (λ t. run t later))
  run-step (ok (s, calls)) es later ih = rw (ih s) (then_after (run s es) (λ t. run t later) calls)
  run-step nothing es later ih = refl
  run-step panic es later ih = refl
  run-step stuck es later ih = refl

  pub run-append :
      (es later : List Event) (s : WsBridgeStream)
      → run s (es ++ later) ≡ (run s es and_then (λ t. run t later))
  unfolding run
  run-append [] later s = sym (after-nil (run s later))
  run-append (e ∷ es) later s =
      run-step (handle unicode_lowercase s e) es later (run-append es later)

  drop_action :
      (m : Outcome (WsBridgeStream × List Effect × Action)) (next : WsBridgeStream → Result)
      → ((m >>= λ r. ok (r.0, r.1)) and_then next) ≡ (m >>= λ r. next r.0 >>= after r.1)
  drop_action (ok r) next = refl
  drop_action nothing next = refl
  drop_action panic next = refl
  drop_action stuck next = refl

  pub run-chunk_events :
      (cs : List Bytes) (s : WsBridgeStream)
      → run s (chunk_events cs) ≡ deliver_chunks unicode_lowercase s cs
  unfolding run deliver_chunks handle
  run-chunk_events [] s = refl
  run-chunk_events (c ∷ cs) s =
      drop_action (on_downstream_data unicode_lowercase s (some c)) (λ t. run t (chunk_events cs))
      ∙ ap
          (λ (next : WsBridgeStream → Result).
            on_downstream_data unicode_lowercase s (some c) >>= λ r. next r.0 >>= after r.1)
          (fun_ext (run-chunk_events cs))
