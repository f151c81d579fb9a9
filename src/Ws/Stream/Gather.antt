-- ===== src/Ws/Stream/Gather.antt =====
-- The upgrade request of wasm/src/lib.rs, in whatever chunks it arrives.
use grpcgi.Base.{
  ℕ, ◌+◌, ◌<◌, ◌≡◌, refl, sym, ap, subst, ◌∙◌, true, arith, List, [], ◌∷◌, ◌++◌, concat,
}
use grpcgi.Base.{length, length-append, append_assoc, take, take-append_self, some, ok, nothing}
use grpcgi.Base.Host.{continue}
use grpcgi.Base.Machine.{Bytes}
use grpcgi.Base.Text.{Text}
use grpcgi.Base.Utf8.{is_utf8}
use grpcgi.Ws.Search.{find_subsequence}
use grpcgi.Ws.Search.Laws.{find_subsequence-FirstAt, find_subsequence_front}
use grpcgi.Ws.Upgrade.{Header, parse_http_request_headers}
use grpcgi.Ws.Upgrade.Rfc7230.{RequestHead, IsRequestHead, head_bytes}
use grpcgi.Ws.Upgrade.Parse.{head_headers, parse_http_request_headers-head_bytes}
use grpcgi.Ws.Stream.{State, awaiting_upgrade_request, awaiting_upgrade_response, WsBridgeStream}
use grpcgi.Ws.Stream.{header_end, headers_up_to, gather_request, downstream_in, on_downstream_data}
use grpcgi.Ws.Stream.Frames.{with_buf}
use grpcgi.Ws.Stream.HeaderEnd.{FirstAt-head_bytes}
use grpcgi.Ws.Stream.Chunks.{deliver_chunks}

-- The stream that has captured a request's headers.
abbrev pub captured : WsBridgeStream → List Header → WsBridgeStream
captured s headers = record s {
  state = awaiting_upgrade_response;
  downstream_buf = [];
  upgrade_headers = headers;
}

module _ (unicode_lowercase : Text → Text) where
  chunk-waits :
      (s : WsBridgeStream) (c : Bytes)
      → s.state ≡ awaiting_upgrade_request
      → find_subsequence (s.downstream_buf ++ c) header_end ≡ nothing
      → on_downstream_data unicode_lowercase s (some c)
        ≡ ok (with_buf s (s.downstream_buf ++ c), [], continue)
  unfolding on_downstream_data downstream_in gather_request headers_up_to
  chunk-waits s c a e = ap (λ (st : State). downstream_in unicode_lowercase st (some c) s) a ∙ rw e

  chunk-ends :
      (s : WsBridgeStream) (c block : Bytes) (k : ℕ)
      → s.state ≡ awaiting_upgrade_request
      → find_subsequence (s.downstream_buf ++ c) header_end ≡ ok k
      → take (k + 4) (s.downstream_buf ++ c) ≡ block
      → on_downstream_data unicode_lowercase s (some c)
        ≡ ok (captured s (parse_http_request_headers unicode_lowercase block), [], continue)
  unfolding on_downstream_data downstream_in gather_request headers_up_to
  chunk-ends s c block k a e cut =
      ap (λ (st : State). downstream_in unicode_lowercase st (some c) s) a ∙ rw (e, cut)

  deliver_chunks-awaiting_response :
      (s : WsBridgeStream) (cs : List Bytes)
      → s.state ≡ awaiting_upgrade_response
      → deliver_chunks unicode_lowercase s cs ≡ ok (s, [])
  unfolding deliver_chunks on_downstream_data downstream_in
  deliver_chunks-awaiting_response s [] a = refl
  deliver_chunks-awaiting_response s (c ∷ cs) a =
      let passed : on_downstream_data unicode_lowercase s (some c) ≡ ok (s, [], continue) =
        ap (λ (st : State). downstream_in unicode_lowercase st (some c) s) a in
      rw passed (rw (deliver_chunks-awaiting_response s cs a) refl)

  gather-head_bytes :
      (cs : List Bytes) (last : Bytes) (later : List Bytes) (r : RequestHead) (extra : Bytes)
      (s : WsBridgeStream)
      → s.state ≡ awaiting_upgrade_request
      → IsRequestHead r
      → is_utf8 (head_bytes r) ≡ true
      → s.downstream_buf ++ (concat cs ++ last) ≡ head_bytes r ++ extra
      → length (s.downstream_buf ++ concat cs) < length (head_bytes r)
      → deliver_chunks unicode_lowercase s (cs ++ last ∷ later)
        ≡ ok (captured s (head_headers unicode_lowercase r), [])
  unfolding deliver_chunks
  gather-head_bytes [] last later r extra s a valid text e short =
      let (k, first, total) = FirstAt-head_bytes r extra valid in
      let found : find_subsequence (s.downstream_buf ++ last) header_end ≡ ok k =
        rw e (find_subsequence-FirstAt _ header_end k (omega arith) first) in
      let cut : take (k + 4) (s.downstream_buf ++ last) ≡ head_bytes r =
        rw (e, total) (take-append_self (head_bytes r) extra) in
      let done = captured s (head_headers unicode_lowercase r) in
      rw
        (
          chunk-ends s last (head_bytes r) k a found cut,
          parse_http_request_headers-head_bytes unicode_lowercase r valid text,
          deliver_chunks-awaiting_response done later refl,
        )
        refl
  gather-head_bytes (c ∷ cs) last later r extra s a valid text e short =
      let front : Bytes = s.downstream_buf ++ c in
      let back : Bytes = concat cs ++ last in
      let (k, first, total) = FirstAt-head_bytes r extra valid in
      let whole : front ++ back ≡ head_bytes r ++ extra =
        append_assoc s.downstream_buf c back
        ∙ ap (◌++◌ s.downstream_buf) (sym (append_assoc c (concat cs) last))
        ∙ e in
      let sizes : length front < length (head_bytes r) = omega (
        arith,
        length-append s.downstream_buf c,
        length-append s.downstream_buf (c ++ concat cs),
        length-append c (concat cs),
      ) in
      let waiting : find_subsequence front header_end ≡ nothing =
        find_subsequence_front front back header_end k (omega arith) (rw whole first)
          (omega arith) in
      rw (chunk-waits s c a waiting) (
        rw
          (gather-head_bytes cs last later r extra (with_buf s front) a valid text whole (
            subst (λ (l : Bytes). length l < length (head_bytes r))
              (sym (append_assoc s.downstream_buf c (concat cs))) short))
          refl)

pub deliver_chunks-head_bytes :
    (unicode_lowercase : Text → Text) (s : WsBridgeStream) (r : RequestHead) (cs : List Bytes)
    (last extra : Bytes) (later : List Bytes)
    → s.state ≡ awaiting_upgrade_request
    → s.downstream_buf ≡ []
    → IsRequestHead r
    → is_utf8 (head_bytes r) ≡ true
    → concat cs ++ last ≡ head_bytes r ++ extra
    → length (concat cs) < length (head_bytes r)
    → deliver_chunks unicode_lowercase s (cs ++ last ∷ later)
      ≡ ok (captured s (head_headers unicode_lowercase r), [])
deliver_chunks-head_bytes unicode_lowercase s r cs last extra later a empty valid text e short =
    gather-head_bytes unicode_lowercase cs last later r extra s a valid text
      (ap (λ (l : Bytes). l ++ (concat cs ++ last)) empty ∙ e)
      (subst (λ (l : Bytes). length (l ++ concat cs) < length (head_bytes r)) (sym empty) short)
