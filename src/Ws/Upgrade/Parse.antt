-- ===== src/Ws/Upgrade/Parse.antt =====
-- `parse_http_request_headers` of wasm/src/lib.rs on the head of a well-formed request.
use grpcgi.Base.{
  ◌≡◌, refl, sym, ap, ◌∙◌, true, false, arith, List, [], ◌∷◌, ◌++◌, map, length, drop, All, ◌==◌,
}
use grpcgi.Base.{take-append_self, drop-append_self, drop-drop, length-append, ◌+◌}
use grpcgi.Base.Text.{Text, ascii}
use grpcgi.Base.Text.Trim.{spaces, trim-spaces}
use grpcgi.Base.Text.Seek.{find_byte}
use grpcgi.Base.Utf8.{is_utf8}
use grpcgi.Ws.Upgrade.{Header, to_lowercase, next_part, request_line, header_of}
use grpcgi.Ws.Upgrade.{header_lines, headers_of_lines, parse_http_request_headers}
use grpcgi.Ws.Upgrade.Rfc7230.{
  HeaderField, RequestHead, field_line, first_line, head_lines, head_bytes,
}
use grpcgi.Ws.Upgrade.Rfc7230.{IsHeaderField, IsRequestHead}
use grpcgi.Ws.Upgrade.Lines.{split_crlf-lines_bytes, split_space-part, head_lines-Lacks}

module _ (unicode_lowercase : Text → Text) where
  -- The pairs that a request head stands for: the request line as two pseudo-headers, and each
  -- field with its name in lower case.
  abbrev pub field_header : HeaderField → Header
  field_header f = (to_lowercase unicode_lowercase f.name, f.value)

  abbrev pub head_headers : RequestHead → List Header
  head_headers r = (ascii ":method", r.method) ∷ (ascii ":path", r.path) ∷ map field_header r.fields

  header_of-field_line :
      (f : HeaderField)
      → IsHeaderField f
      → header_of unicode_lowercase (field_line f) ≡ field_header f ∷ []
  unfolding header_of
  header_of-field_line f valid =
      let rest : Text = spaces f.gap ++ f.value in
      let behind : drop (length f.name + 1) (field_line f) ≡ rest =
        sym (drop-drop 1 (length f.name) (field_line f))
        ∙ ap (drop 1) (drop-append_self f.name (b':' ∷ rest)) in
      rw (find_byte b':' f.name rest valid.name_colon, header_of)
        (rw
          (
            take-append_self f.name (b':' ∷ rest),
            behind,
            trim-spaces 0 f.name valid.name_trimmed,
            trim-spaces f.gap f.value valid.value_trimmed,
          )
          refl)

  header_lines-fields :
      (fs : List HeaderField) (more : List Text)
      → All IsHeaderField fs
      → header_lines unicode_lowercase (map field_line fs ++ [] ∷ more) ≡ map field_header fs
  unfolding header_lines
  header_lines-fields [] more valid = refl
  header_lines-fields (f ∷ fs) more valid =
      let some_line : (length (field_line f) == 0) ≡ false =
        ground (arith, length-append f.name (b':' ∷ (spaces f.gap ++ f.value))) in
      rw (some_line, header_of-field_line f valid.0, header_lines-fields fs more valid.1)

  request_line-first_line :
      (r : RequestHead)
      → IsRequestHead r
      → request_line (first_line r) ≡ (ascii ":method", r.method) ∷ (ascii ":path", r.path) ∷ []
  unfolding request_line next_part
  request_line-first_line r valid =
      rw (split_space-part r.method (r.path ++ b' ' ∷ r.version) valid.method_space)
        (rw (next_part, split_space-part r.path r.version valid.path_space) refl)

  -- The head of a well-formed request in UTF-8 is read as its method, its path and its fields, in
  -- order, with names in lower case and without the spaces in front of a value.
  pub parse_http_request_headers-head_bytes :
      (r : RequestHead)
      → IsRequestHead r
      → is_utf8 (head_bytes r) ≡ true
      → parse_http_request_headers unicode_lowercase (head_bytes r) ≡ head_headers r
  unfolding parse_http_request_headers headers_of_lines
  parse_http_request_headers-head_bytes r valid text =
      rw (text, split_crlf-lines_bytes (head_lines r) (head_lines-Lacks r valid))
        (rw
          (
            request_line-first_line r valid,
            header_lines-fields r.fields ([] ∷ []) valid.fields_valid,
          )
          refl)
