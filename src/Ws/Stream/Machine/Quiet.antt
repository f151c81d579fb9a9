-- ===== src/Ws/Stream/Machine/Quiet.antt =====
-- `process_ws_frames` of wasm/src/lib.rs opens no gRPC stream.
use grpcgi.Base.{
  ℕ, zero, suc, ◌≡◌, refl, ap, ap₂, subst, ◌∙◌, Bool, true, false, List, [], ◌∷◌, ◌++◌,
}
use grpcgi.Base.{Option, none, some, Outcome, ok, nothing, panic, stuck, ◌>>=◌}
use grpcgi.Base.{>>=-eq-ok, ◌==◌, ◌||◌, if◌then◌else◌}
use grpcgi.Base.Machine.{Bytes, slice_from}
use grpcgi.Ws.FrameCodec.{encode_ws_frame, parse_ws_frame}
use grpcgi.Ws.Stream.{
  WsBridgeStream, Effect, open_grpc_stream, set_downstream_data, send_grpc_stream_message,
  close_grpc_stream, send_frame, close_stream, handle_frame,
}
use grpcgi.Ws.Stream.{}
use grpcgi.Ws.Stream.{match_result, round_end, process_round, after}
use grpcgi.Ws.Stream.{Round, stop, again, process_loop}
use grpcgi.Ws.Stream.Machine.{Opened, opens, opened_by}

pub opens-append :
    (before later : List Effect) → opens (before ++ later) ≡ opens before ++ opens later
opens-append [] later = refl
opens-append (open_grpc_stream c v m h ∷ before) later =
    ap (◌∷◌ (c, v, m, h)) (opens-append before later)
opens-append (set_downstream_data _ ∷ before) later = opens-append before later
opens-append (send_grpc_stream_message _ _ _ ∷ before) later = opens-append before later
opens-append (close_grpc_stream _ ∷ before) later = opens-append before later

-- Calls that open nothing and leave what has been opened.
abbrev pub Quiet : WsBridgeStream → WsBridgeStream × List Effect → Type 0
Quiet s (s', calls) = (opens calls ≡ []) × (opened_by s' ≡ opened_by s)

opens-send_frame :
    (id : Option ℕ) (payload : Bytes) (binary : Bool) → opens (send_frame id payload binary) ≡ []
unfolding send_frame
opens-send_frame none payload binary = refl
opens-send_frame (some stream_id) payload binary = refl

opens-close_stream : (id : Option ℕ) → opens (close_stream id) ≡ []
unfolding close_stream
opens-close_stream none = refl
opens-close_stream (some stream_id) = refl

handle_frame-Quiet :
    (s : WsBridgeStream) (opcode : ℕ) (payload : Bytes)
    → let r = handle_frame s opcode payload in (opens r.1 ≡ []) × (opened_by r.0 ≡ opened_by s)
unfolding handle_frame
handle_frame-Quiet s opcode payload =
    by_test (opcode == 0x01 || opcode == 0x02) (opcode == 0x08) (opcode == 0x09)
  where
    by_test :
        (data_frame closing ping : Bool)
        → let r : WsBridgeStream × List Effect × Bool =
            if data_frame
            then (s, send_frame s.grpc_stream_id payload (opcode == 0x02), false)
            else if closing
            then (record s { grpc_stream_id = none }, close_stream s.grpc_stream_id, true)
            else if ping
            then (s, set_downstream_data (encode_ws_frame 0x0a payload) ∷ [], false)
            else (s, [], false) in
          (opens r.1 ≡ []) × (opened_by r.0 ≡ opened_by s)
    by_test true closing ping = (opens-send_frame s.grpc_stream_id payload (opcode == 0x02), refl)
    by_test false true ping = (opens-close_stream s.grpc_stream_id, refl)
    by_test false false true = (refl, refl)
    by_test false false false = (refl, refl)

abbrev QuietRound : WsBridgeStream → Round → Type 0
QuietRound s (stop s' calls) = Quiet s (s', calls)
QuietRound s (again s' calls) = Quiet s (s', calls)

abbrev QuietResult : WsBridgeStream → Outcome Round → Type 0
QuietResult s (ok r) = QuietRound s r
QuietResult s _ = zero ≡ zero

abbrev QuietOutcome : WsBridgeStream → Outcome (WsBridgeStream × List Effect) → Type 0
QuietOutcome s (ok r) = Quiet s r
QuietOutcome s _ = zero ≡ zero

round_end-Quiet :
    (s : WsBridgeStream) (r : WsBridgeStream × List Effect × Bool)
    → (opens r.1 ≡ []) × (opened_by r.0 ≡ opened_by s)
    → QuietRound s (round_end r)
unfolding round_end
round_end-Quiet s (s', calls, true) q = q
round_end-Quiet s (s', calls, false) q = q

match_result-Quiet :
    (s : WsBridgeStream) (m : Outcome (ℕ × Bytes × ℕ)) (r : Round)
    → match_result s m ≡ ok r
    → QuietRound s r
unfolding match_result round_end
match_result-Quiet s nothing r e = subst (λ (o : Outcome Round). QuietResult s o) e (refl, refl)
match_result-Quiet s panic r e = cc
match_result-Quiet s stuck r e = cc
match_result-Quiet s (ok (opcode, payload, consumed)) r e =
    let (rest, drained, ended) = >>=-eq-ok (slice_from s.downstream_buf consumed) _ e in
    let s' : WsBridgeStream = record s { downstream_buf = rest } in
    subst (λ (o : Outcome Round). QuietResult s o) ended
      (round_end-Quiet s (handle_frame s' opcode payload) (handle_frame-Quiet s' opcode payload))

-- The loop of `process_ws_frames` opens nothing.
pub process_loop-Quiet :
    (fuel : ℕ) (s : WsBridgeStream) (r : WsBridgeStream × List Effect)
    → process_loop fuel s ≡ ok r
    → Quiet s r
unfolding process_loop process_round
process_loop-Quiet zero s r e = cc
process_loop-Quiet (suc fuel) s r e =
    let (round, matched, later) =
      >>=-eq-ok (match_result s (parse_ws_frame s.downstream_buf)) _ e in
    by_round round (match_result-Quiet s _ round matched) later (λ t q. process_loop-Quiet fuel t q)
  where
    by_round :
        (round : Round)
        → QuietRound s round
        → (elim round [
          | stop s' calls ↦ ok (s', calls)
          | again s' calls ↦ process_loop fuel s' >>= after calls
        ])
          ≡ ok r
        → ((t : WsBridgeStream) (q : WsBridgeStream × List Effect)
            → process_loop fuel t ≡ ok q
            → Quiet t q)
        → Quiet s r
    by_round (stop s' calls) (none_opened, same) f loop =
        subst (λ (o : Outcome (WsBridgeStream × List Effect)). QuietOutcome s o) f
          (none_opened, same)
    by_round (again s' calls) (none_opened, same) f loop =
        let (q, done, joined) = >>=-eq-ok (process_loop fuel s') (after calls) f in
        let (none_later, same_later) = loop s' q done in
        subst (λ (o : Outcome (WsBridgeStream × List Effect)). QuietOutcome s o) joined
          (
            opens-append calls q.1 ∙ ap₂ (λ (a b : List Opened). a ++ b) none_opened none_later,
            same_later ∙ same,
          )
