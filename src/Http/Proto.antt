-- ===== src/Http/Proto.antt =====
-- The protobuf codec of wasm/http-bridge/src/lib.rs: `push_len_field`, `encode_http_request`,
-- `decode_http_response` and `decode_header`. The two decoders have the same loop and differ in
-- the `match (field, wire)`, which the loop takes as `arm`. Where `pos + n` is written without
-- wrap-around, `n` bytes have been read behind `pos`, or `n` is 4 or 8.
pub mod Fields
pub mod Request
pub mod HeaderMessage
pub mod Response
pub mod Wrap
use grpcgi.Base.{ℕ, zero, suc, ◌+◌, ◌*◌, ◌/◌, bit_and, bit_or, List, [], ◌∷◌, ◌++◌, length, ltb}
use grpcgi.Base.{◌==◌, ◌&&◌, if◌then◌else◌, Outcome, ok, nothing, panic, stuck, ◌>>=◌}
use grpcgi.Base.Machine.{Bytes, u32, u64, usize, slice, slice_from}
use grpcgi.Base.Text.{Text}
use grpcgi.Base.Utf8.{from_utf8_lossy}
use grpcgi.Http.Varint.{write_varint, read_varint}

abbrev pub Header : Type 0
Header = Text × Text

unfoldable pub push_len_field : ℕ → Bytes → Bytes → Bytes
push_len_field field_num data' buf =
    let tag = bit_or (u64 (field_num * 8)) 2 in
    write_varint (u64 (length data')) (write_varint tag buf) ++ data'

-- One round of `for (k, v) in headers`.
unfoldable pub push_header_field : Header → Bytes → Bytes
push_header_field (k, v) out = push_len_field 1 (push_len_field 2 v (push_len_field 1 k [])) out

unfoldable pub push_headers : List Header → Bytes → Bytes
push_headers [] out = out
push_headers (h ∷ hs) out = push_headers hs (push_header_field h out)

unfoldable pub encode_http_request : List Header → Bytes → Bytes
encode_http_request headers body =
    let out = push_headers headers [] in if length body == 0 then out else push_len_field 2 body out

-- How a round of a decoder ends: by `break`, or at a new `pos`.
pub data Round (A : Type 0) : Type 0 where
  stop : A → Round A
  again : ℕ → A → Round A

-- `read_varint(&raw[pos..])`
unfoldable pub read_at : Bytes → ℕ → Outcome (ℕ × ℕ)
read_at raw pos = slice_from raw pos >>= read_varint

module _ {A : Type 0} (arm : Bytes → ℕ → ℕ → ℕ → A → Outcome (Round A)) where
  unfoldable pub fields_round : Bytes → ℕ → A → Outcome (Round A)
  fields_round raw pos a = do
    (tag, n) ← read_at raw pos
    arm raw (pos + n) (u32 (tag / 8)) (u32 (bit_and tag 0x7)) a

  -- `while pos < raw.len()`, for as many rounds as the fuel says.
  unfoldable pub fields_loop : ℕ → Bytes → ℕ → A → Outcome A
  fields_loop zero raw pos a = if ltb pos (length raw) then stuck else ok a
  fields_loop (suc fuel) raw pos a =
      let rest =
        fields_round raw pos a
        >>= elim [ stop a' ↦ ok a' | again pos' a' ↦ fields_loop fuel raw pos' a' ] in
      if ltb pos (length raw) then rest else ok a

-- The length in front of a length-delimited field: where its content starts and where it ends; the
-- second sum wraps.
unfoldable pub field_range : Bytes → ℕ → Outcome (ℕ × ℕ)
field_range raw pos = do (len, n) ← read_at raw pos; ok (pos + n, usize (pos + n + usize len))

-- The arms `(_, 0)`, `(_, 2)` and `_`.
unfoldable pub skip_arm : {A : Type 0} → Bytes → ℕ → ℕ → A → Outcome (Round A)
skip_arm raw pos wire a =
    if wire == 0
    then (do (_, n) ← read_at raw pos; ok (again (pos + n) a))
    else if wire == 2
    then (do (_, end) ← field_range raw pos; ok (again end a))
    else ok (stop a)

-- `String::from_utf8_lossy(&msg[pos..pos + len as usize])`, for the field's own content.
unfoldable pub header_arm : Bytes → ℕ → ℕ → ℕ → Header → Outcome (Round Header)
header_arm msg pos field wire (key, val) =
    if field == 1 && wire == 2
    then (do
      (start, end) ← field_range msg pos
      content ← slice msg start end
      ok (again end (from_utf8_lossy content, val)))
    else if field == 2 && wire == 2
    then (do
      (start, end) ← field_range msg pos
      content ← slice msg start end
      ok (again end (key, from_utf8_lossy content)))
    else skip_arm msg pos wire (key, val)

-- A header without a key is none.
unfoldable pub keyed : Header → Outcome Header
keyed h = if length h.0 == 0 then nothing else ok h

-- Each round reads a byte at least, so `msg.len()` rounds are enough where no length wraps.
unfoldable pub decode_header : Bytes → Outcome Header
decode_header msg = fields_loop header_arm (length msg) msg 0 ([], []) >>= keyed

pub record HttpResponse : Type 0 where
  pub status : ℕ
  pub headers : List Header
  pub body : Bytes

-- `if let Some((k, v)) = decode_header(…) { headers.push((k, v)); }`
unfoldable pub push_decoded : Outcome Header → HttpResponse → Outcome HttpResponse
push_decoded nothing r = ok r
push_decoded panic r = panic
push_decoded stuck r = stuck
push_decoded (ok h) r = ok (record r { headers = r.headers ++ (h ∷ []) })

unfoldable pub response_arm : Bytes → ℕ → ℕ → ℕ → HttpResponse → Outcome (Round HttpResponse)
response_arm raw pos field wire r =
    if field == 1 && wire == 0
    then (do (v, n) ← read_at raw pos; ok (again (pos + n) (record r { status = u32 v })))
    else if field == 2 && wire == 2
    then (do
      (start, end) ← field_range raw pos
      content ← slice raw start end
      r' ← push_decoded (decode_header content) r
      ok (again end r'))
    else if field == 3 && wire == 2
    then (do
      (start, end) ← field_range raw pos
      content ← slice raw start end
      ok (again end (record r { body = r.body ++ content })))
    else if wire == 5
    then ok (again (pos + 4) r)
    else if wire == 1
    then ok (again (pos + 8) r)
    else skip_arm raw pos wire r

abbrev pub empty_response : HttpResponse
empty_response = record { status = 200; headers = []; body = [] }

unfoldable pub decode_http_response : Bytes → Outcome HttpResponse
decode_http_response raw = fields_loop response_arm (length raw) raw 0 empty_response
