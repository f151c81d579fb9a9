-- ===== src/Ws/FrameProto/Wrap.antt =====
-- Lengths that wrap around in `usize`: the decoder panics or loops for ever.
use grpcgi.Base.{ℕ, zero, suc, ◌+◌, ◌^◌, ◌≤◌, ◌<◌, arith, ◌≡◌, ◌≢◌, ◌∙◌}
use grpcgi.Base.{Bool, false, [], ◌++◌, length, length-append, append_assoc, ok}
use grpcgi.Base.{stuck, le→not_ltb, lt→ltb}
use grpcgi.Base.Machine.{Bytes, IsSlice, usize}
use grpcgi.Wire.Varint.{varint, length-groups}
use grpcgi.Wire.Fields.{tag_of}
use grpcgi.Ws.Varint.{read_varint}
use grpcgi.Ws.Varint.Laws.{read_varint-varint}
use grpcgi.Ws.FrameProto.{field_end, skip_field, decode_arm, decode_round, decode_loop}
use grpcgi.Ws.FrameProto.Decode.{tag_parts, decode_loop-suc}

-- The bytes of a tag and a length, with no content behind them.
abbrev pub len_header : ℕ → ℕ → Bytes
len_header number len = varint (tag_of number 2) ++ varint len

-- The content's end wraps to the start of the field.
field_end_wraps :
    (buf : Bytes) (i len start : ℕ)
    → len < 2 ^ 32
    → i + len ≡ 2 ^ 32 + start
    → start ≤ length buf
    → start < 2 ^ 32
    → field_end buf i len ≡ ok start
unfolding field_end
field_end_wraps buf i len start small e h k =
    let wrapped : usize (i + usize len) ≡ start = omega arith in
    rw (wrapped, le→not_ltb (length buf) start h)

decode_loop-zero :
    (proto : Bytes) (i : ℕ) (payload : Bytes) (binary : Bool)
    → i < length proto
    → decode_loop zero proto i payload binary ≡ stuck
unfolding decode_loop
decode_loop-zero proto i payload binary h = rw (lt→ltb i (length proto) h)

module _ (before after : Bytes) (number len : ℕ) (small : number < 2 ^ 29)
    (len_lt : len < 2 ^ 32) where
  -- A buffer with such a header in it.
  abbrev buffer : Bytes
  buffer = before ++ (len_header number len ++ after)

  abbrev behind_tag : ℕ
  behind_tag = length before + length (varint (tag_of number 2))

  reads_tag :
      read_varint buffer (length before) ≡ ok (tag_of number 2, length (varint (tag_of number 2)))
  reads_tag =
      rw (append_assoc (varint (tag_of number 2)) (varint len) after)
        (read_varint-varint before (tag_of number 2) (varint len ++ after) (omega arith))

  reads_len : read_varint buffer behind_tag ≡ ok (len, length (varint len))
  reads_len =
      rw
        (
          append_assoc (varint (tag_of number 2)) (varint len) after,
          ← append_assoc before (varint (tag_of number 2)) (varint len ++ after),
          ← length-append before (varint (tag_of number 2)),
        )
        (read_varint-varint (before ++ varint (tag_of number 2)) len after (omega arith))

  buffer_long : behind_tag + length (varint len) ≤ length buffer
  buffer_long = omega (
    arith,
    length-append before (len_header number len ++ after),
    length-append (len_header number len) after,
    length-append (varint (tag_of number 2)) (varint len),
  )

  header_below : length before < length buffer
  header_below = omega (arith, buffer_long, length-groups 9 len)

  -- The round behind the tag.
  round_of_tag :
      (payload : Bytes) (binary : Bool)
      → decode_round buffer (length before) payload binary
        ≡ decode_arm buffer behind_tag number 2 payload binary
  unfolding decode_round
  round_of_tag payload binary =
      let (wire, same) = tag_parts number 2 small (omega arith) in rw (reads_tag, wire, same)

  -- An unknown length-delimited field at `length before`, whose length takes its end back to its
  -- own tag, costs a round and changes nothing.
  round_wraps :
      (payload : Bytes) (binary : Bool)
      → number ≢ 1
      → length (len_header number len) + len ≡ 2 ^ 32
      → IsSlice buffer
      → decode_round buffer (length before) payload binary ≡ ok (length before, payload, binary)
  unfolding decode_arm skip_field
  round_wraps payload binary other e fits =
      let sum = length-append (varint (tag_of number 2)) (varint len) in
      let back =
        field_end_wraps buffer (behind_tag + length (varint len)) len (length before) len_lt
          (omega (arith, sum)) (omega (arith, buffer_long)) (omega (arith, buffer_long)) in
      round_of_tag payload binary ∙ ground (arith, reads_len, back)

  -- From that field on the loop never ends, whatever the fuel.
  decode_loop_hangs :
      (fuel : ℕ) (payload : Bytes) (binary : Bool)
      → number ≢ 1
      → length (len_header number len) + len ≡ 2 ^ 32
      → IsSlice buffer
      → decode_loop fuel buffer (length before) payload binary ≡ stuck
  decode_loop_hangs zero payload binary other e fits =
      decode_loop-zero buffer (length before) payload binary header_below
  decode_loop_hangs (suc fuel) payload binary other e fits =
      decode_loop-suc fuel buffer (length before) payload binary header_below
      ∙ rw (round_wraps payload binary other e fits)
          (decode_loop_hangs fuel payload binary other e fits)

-- A message that starts with an unknown length-delimited field, whose length takes its end back to
-- the message's start, is never decoded: the loop runs out of every amount of fuel.
pub decode_frame_proto_hangs :
    (number len fuel : ℕ) (after : Bytes)
    → number ≢ 1
    → number < 2 ^ 29
    → len < 2 ^ 32
    → length (len_header number len) + len ≡ 2 ^ 32
    → IsSlice (len_header number len ++ after)
    → decode_loop fuel (len_header number len ++ after) 0 [] false ≡ stuck
decode_frame_proto_hangs number len fuel after other small len_lt e fits =
    decode_loop_hangs [] after number len small len_lt fuel [] false other e fits
