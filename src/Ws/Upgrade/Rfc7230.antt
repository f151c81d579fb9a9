-- ===== src/Ws/Upgrade/Rfc7230.antt =====
-- The head of an HTTP request as RFC 7230 lays it out: a request line, header fields, an empty line.
use grpcgi.Base.{ℕ, List, [], ◌∷◌, ◌++◌, map, All}
use grpcgi.Base.Machine.{Bytes}
use grpcgi.Base.Text.{Text}
use grpcgi.Base.Text.Trim.{IsTrimmed, spaces}
use grpcgi.Base.Text.Seek.{Lacks}

-- A header field; `gap` counts the spaces in front of its value.
pub record HeaderField : Type 0 where
  pub name : Text
  pub gap : ℕ
  pub value : Text

pub record RequestHead : Type 0 where
  pub method : Text
  pub path : Text
  pub version : Text
  pub fields : List HeaderField

abbrev pub crlf : Bytes
crlf = b'\r' ∷ b'\n' ∷ []

abbrev pub field_line : HeaderField → Text
field_line f = f.name ++ b':' ∷ (spaces f.gap ++ f.value)

abbrev pub first_line : RequestHead → Text
first_line r = r.method ++ b' ' ∷ (r.path ++ b' ' ∷ r.version)

-- Each line with its end, and the empty line.
abbrev pub lines_bytes : List Text → Bytes
lines_bytes [] = crlf
lines_bytes (line ∷ lines) = line ++ (crlf ++ lines_bytes lines)

abbrev pub head_lines : RequestHead → List Text
head_lines r = first_line r ∷ map field_line r.fields

abbrev pub head_bytes : RequestHead → Bytes
head_bytes r = lines_bytes (head_lines r)

-- A field whose name holds no colon, with no white space round its parts and no line end in them.
pub record IsHeaderField (f : HeaderField) : Type 0 where
  pub name_trimmed : IsTrimmed f.name
  pub name_colon : Lacks b':' f.name
  pub name_line : Lacks b'\r' f.name
  pub value_trimmed : IsTrimmed f.value
  pub value_line : Lacks b'\r' f.value

-- A request whose parts hold no line end, and whose method and path hold no space.
pub record IsRequestHead (r : RequestHead) : Type 0 where
  pub method_space : Lacks b' ' r.method
  pub method_line : Lacks b'\r' r.method
  pub path_space : Lacks b' ' r.path
  pub path_line : Lacks b'\r' r.path
  pub version_line : Lacks b'\r' r.version
  pub fields_valid : All IsHeaderField r.fields
