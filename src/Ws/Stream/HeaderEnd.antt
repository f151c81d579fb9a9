-- ===== src/Ws/Stream/HeaderEnd.antt =====
-- Where the head of a request ends: the first CR LF CR LF of wasm/src/lib.rs.
use grpcgi.Base.{ℕ, zero, suc, ◌+◌, ◌<◌, ◌≡◌, ◌≢◌, refl, ap, subst, arith, List, [], ◌∷◌, ◌++◌}
use grpcgi.Base.{length, length-append, append_assoc, All, drop, take, map}
use grpcgi.Base.Machine.{Bytes}
use grpcgi.Base.Text.{Text}
use grpcgi.Base.Text.Seek.{Lacks}
use grpcgi.Ws.Search.Laws.{OccursAt, FirstAt}
use grpcgi.Ws.Upgrade.Rfc7230.{
  RequestHead, IsRequestHead, HeaderField, field_line, crlf, lines_bytes, head_bytes,
}
use grpcgi.Ws.Upgrade.Lines.{head_lines-Lacks}
use grpcgi.Ws.Stream.{header_end}

FirstAt-cons :
    (c k : ℕ) (t : Bytes) → c ≢ b'\r' → FirstAt t header_end k → FirstAt (c ∷ t) header_end (suc k)
FirstAt-cons c k t other (there, none_before) = (there, earlier)
  where
    earlier : (j : ℕ) → j < suc k → ¬ OccursAt (c ∷ t) header_end j
    earlier zero h e = ground (arith, ap (take 1) e)
    earlier (suc j) h e = none_before j (omega arith) e

FirstAt-crlf :
    (d k : ℕ) (t : Bytes)
    → d ≢ b'\r'
    → FirstAt (d ∷ t) header_end k
    → FirstAt (crlf ++ d ∷ t) header_end (suc (suc k))
FirstAt-crlf d k t other (there, none_before) = (there, earlier)
  where
    earlier : (j : ℕ) → j < suc (suc k) → ¬ OccursAt (crlf ++ d ∷ t) header_end j
    earlier zero h e = ground (arith, ap (λ (l : Bytes). take 1 (drop 2 l)) e)
    earlier (suc zero) h e = cc (ap (take 1) e)
    earlier (suc (suc j)) h e = none_before j (omega arith) e

FirstAt-line :
    (line t : Bytes) (k : ℕ)
    → Lacks b'\r' line
    → FirstAt t header_end k
    → FirstAt (line ++ t) header_end (length line + k)
FirstAt-line [] t k lacks first = subst (FirstAt t header_end) (omega arith) first
FirstAt-line (c ∷ line) t k lacks first =
    subst (FirstAt (c ∷ (line ++ t)) header_end) (omega arith)
      (FirstAt-cons c (length line + k) (line ++ t) lacks.0 (FirstAt-line line t k lacks.1 first))

-- Lines without a line end in them, and not empty.
abbrev IsLine : Text → Type 0
IsLine line = Lacks b'\r' line × (0 < length line)

FirstAt-lines_bytes :
    (line : Text) (lines : List Text) (extra : Bytes)
    → All IsLine (line ∷ lines)
    → (k : ℕ) × FirstAt (lines_bytes (line ∷ lines) ++ extra) header_end k
      × (k + 4 ≡ length (lines_bytes (line ∷ lines)))
FirstAt-lines_bytes line [] extra valid = (
  length line + 0,
  rw append_assoc
      (FirstAt-line line (header_end ++ extra) 0 valid.0.0 (refl, λ j h. absurd (omega arith))),
  omega (arith, length-append line header_end),
)
FirstAt-lines_bytes line ([] ∷ lines) extra valid = absurd (omega (arith, valid.1.0.1))
FirstAt-lines_bytes line ((d ∷ next) ∷ lines) extra valid =
    let (k, first, total) = FirstAt-lines_bytes (d ∷ next) lines extra valid.1 in
    let behind : Bytes = lines_bytes ((d ∷ next) ∷ lines) in
    (
      length line + suc (suc k),
      rw append_assoc (
          FirstAt-line line (crlf ++ (behind ++ extra)) (suc (suc k)) valid.0.0
            (FirstAt-crlf d k _ valid.1.0.0.0 first)),
      omega (arith, total, length-append line (crlf ++ behind)),
    )

field_lines-IsLine :
    (fs : List HeaderField) → All (Lacks b'\r') (map field_line fs) → All IsLine (map field_line fs)
field_lines-IsLine [] lacks = tt
field_lines-IsLine (f ∷ fs) lacks =
    ((lacks.0, omega (arith, length-append f.name _)), field_lines-IsLine fs lacks.1)

-- The first CR LF CR LF behind the start of a request is the end of its head.
pub FirstAt-head_bytes :
    (r : RequestHead) (extra : Bytes)
    → IsRequestHead r
    → (k : ℕ) × FirstAt (head_bytes r ++ extra) header_end k × (k + 4 ≡ length (head_bytes r))
FirstAt-head_bytes r extra valid =
    let lacks = head_lines-Lacks r valid in
    FirstAt-lines_bytes _ (map field_line r.fields) extra
      ((lacks.0, omega (arith, length-append r.method _)), field_lines-IsLine r.fields lacks.1)
