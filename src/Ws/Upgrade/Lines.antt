-- ===== src/Ws/Upgrade/Lines.antt =====
-- The lines of a request head, as `parse_http_request_headers` of wasm/src/lib.rs splits them.
use grpcgi.Base.{
  ℕ, zero, suc, ◌≢◌, ◌≡◌, refl, ap, ◌∙◌, arith, List, [], ◌∷◌, ◌++◌, map, All, All-append, some,
  ◌==◌, false,
}
use grpcgi.Base.Text.{Text}
use grpcgi.Base.Text.Trim.{spaces}
use grpcgi.Base.Text.Seek.{Lacks}
use grpcgi.Ws.Upgrade.{split_crlf, split_space, onto_first}
use grpcgi.Ws.Upgrade.Rfc7230.{HeaderField, RequestHead, crlf, field_line, first_line, lines_bytes}
use grpcgi.Ws.Upgrade.Rfc7230.{head_lines, IsHeaderField, IsRequestHead}

split_crlf-step :
    (c d : ℕ) (rest : Text)
    → c ≢ b'\r'
    → split_crlf (c ∷ d ∷ rest) ≡ onto_first c (split_crlf (d ∷ rest))
unfolding split_crlf
split_crlf-step c d rest other = let not_cr : (c == b'\r') ≡ false = ground arith in rw not_cr

split_crlf-line :
    (line rest : Text)
    → Lacks b'\r' line
    → split_crlf (line ++ (crlf ++ rest)) ≡ line ∷ split_crlf rest
split_crlf-line [] rest lacks = unfold split_crlf in refl
split_crlf-line (c ∷ []) rest lacks =
    split_crlf-step c b'\r' (b'\n' ∷ rest) lacks.0 ∙ ap (onto_first c) (split_crlf-line [] rest tt)
split_crlf-line (c ∷ d ∷ line) rest lacks =
    split_crlf-step c d (line ++ (crlf ++ rest)) lacks.0
    ∙ ap (onto_first c) (split_crlf-line (d ∷ line) rest lacks.1)

-- Two empty texts stand behind the lines: the empty line, and what follows its end.
pub split_crlf-lines_bytes :
    (lines : List Text)
    → All (Lacks b'\r') lines
    → split_crlf (lines_bytes lines) ≡ lines ++ [] ∷ [] ∷ []
split_crlf-lines_bytes [] lacks = unfold split_crlf in refl
split_crlf-lines_bytes (line ∷ lines) lacks =
    split_crlf-line line (lines_bytes lines) lacks.0
    ∙ ap (◌∷◌ line) (split_crlf-lines_bytes lines lacks.1)

pub split_space-part :
    (part rest : Text) → Lacks b' ' part → split_space (part ++ b' ' ∷ rest) ≡ (part, some rest)
unfolding split_space
split_space-part [] rest lacks = refl
split_space-part (c ∷ part) rest lacks = ground (arith, split_space-part part rest lacks.1)

spaces-Lacks : (n : ℕ) → Lacks b'\r' (spaces n)
spaces-Lacks zero = tt
spaces-Lacks (suc n) = (omega arith, spaces-Lacks n)

field_line-Lacks : (f : HeaderField) → IsHeaderField f → Lacks b'\r' (field_line f)
field_line-Lacks f valid =
    All-append _ f.name (b':' ∷ (spaces f.gap ++ f.value)) valid.name_line
      (omega arith, All-append _ (spaces f.gap) f.value (spaces-Lacks f.gap) valid.value_line)

first_line-Lacks : (r : RequestHead) → IsRequestHead r → Lacks b'\r' (first_line r)
first_line-Lacks r valid =
    All-append _ r.method (b' ' ∷ (r.path ++ b' ' ∷ r.version)) valid.method_line (
      omega arith,
      All-append _ r.path (b' ' ∷ r.version) valid.path_line (omega arith, valid.version_line),
    )

field_lines-Lacks :
    (fs : List HeaderField) → All IsHeaderField fs → All (Lacks b'\r') (map field_line fs)
field_lines-Lacks [] valid = tt
field_lines-Lacks (f ∷ fs) valid = (field_line-Lacks f valid.0, field_lines-Lacks fs valid.1)

pub head_lines-Lacks : (r : RequestHead) → IsRequestHead r → All (Lacks b'\r') (head_lines r)
head_lines-Lacks r valid = (first_line-Lacks r valid, field_lines-Lacks r.fields valid.fields_valid)
