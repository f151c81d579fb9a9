-- ===== src/Ws/Upgrade.antt =====
-- `parse_http_request_headers` of wasm/src/lib.rs. `unicode_lowercase` stands for the part of
-- `str::to_lowercase` that goes by the tables of Unicode: what it makes of a text that is not ASCII.
pub mod Rfc7230
pub mod Lines
pub mod Parse
use grpcgi.Base.{ℕ, ◌+◌, ◌&&◌, List, [], ◌∷◌, ◌++◌, map, length, take, drop}
use grpcgi.Base.{◌==◌, if◌then◌else◌, Option, none, some}
use grpcgi.Base.Machine.{Bytes}
use grpcgi.Base.Text.{Text, ascii, find, trim, is_ascii, ascii_lower}
use grpcgi.Base.Utf8.{is_utf8}

abbrev pub Header : Type 0
Header = Text × Text

unfoldable pub to_lowercase : (Text → Text) → Text → Text
to_lowercase unicode_lowercase text =
    if is_ascii text then map ascii_lower text else unicode_lowercase text

abbrev pub onto_first : ℕ → List Text → List Text
onto_first c [] = (c ∷ []) ∷ []
onto_first c (line ∷ lines) = (c ∷ line) ∷ lines

-- `text.split("\r\n")`
unfoldable pub split_crlf : Text → List Text
split_crlf [] = [] ∷ []
split_crlf (a ∷ []) = (a ∷ []) ∷ []
split_crlf (a ∷ b ∷ rest) =
    let cut = split_crlf rest in
    let later = split_crlf (b ∷ rest) in
    if a == b'\r' && b == b'\n' then [] ∷ cut else onto_first a later

-- The text up to the first space, and what is behind it, if there is a space.
unfoldable pub split_space : Text → Text × Option Text
split_space [] = ([], none)
split_space (c ∷ cs) =
    let (part, rest) = split_space cs in if c == b' ' then ([], some cs) else (c ∷ part, rest)

-- The second `parts.next().unwrap_or("")`.
unfoldable pub next_part : Option Text → Text
next_part none = []
next_part (some rest) = (split_space rest).0

-- The pseudo-headers of the request line.
unfoldable pub request_line : Text → List Header
request_line line =
    let parts = split_space line in
    (ascii ":method", parts.0) ∷ (ascii ":path", next_part parts.1) ∷ []

module _ (unicode_lowercase : Text → Text) where
  -- A line with a colon becomes a header; any other line is passed over.
  unfoldable pub header_of : Text → List Header
  header_of line = elim (find (ascii ":") line) [
    | none ↦ []
    | some colon ↦
        let name = to_lowercase unicode_lowercase (trim (take colon line)) in
        let value = trim (drop (colon + 1) line) in (name, value) ∷ []
  ]

  -- The loop over the lines behind the request line; an empty line ends it.
  unfoldable pub header_lines : List Text → List Header
  header_lines [] = []
  header_lines (line ∷ lines) =
      let later = header_lines lines in if length line == 0 then [] else header_of line ++ later

  unfoldable pub headers_of_lines : List Text → List Header
  headers_of_lines [] = []
  headers_of_lines (line ∷ lines) = request_line line ++ header_lines lines

  unfoldable pub parse_http_request_headers : Bytes → List Header
  parse_http_request_headers header_block =
      if is_utf8 header_block then headers_of_lines (split_crlf header_block) else []
