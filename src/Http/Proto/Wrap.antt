-- ===== src/Http/Proto/Wrap.antt =====
-- A length that wraps around in `usize`: `decode_http_response` of wasm/http-bridge/src/lib.rs loops
-- for ever.
use grpcgi.Base.{
  ℕ, zero, suc, ◌+◌, ◌^◌, ◌<◌, arith, ◌≡◌, false, [], ◌++◌, length, length-append, ok, stuck,
  lt→ltb, ◌==◌,
}
use grpcgi.Base.Machine.{Bytes, usize}
use grpcgi.Wire.Varint.{varint, length-groups}
use grpcgi.Wire.Fields.{tag_of}
use grpcgi.Http.Proto.{
  HttpResponse, again, fields_round, fields_loop, field_range, skip_arm, response_arm,
  empty_response,
}
use grpcgi.Http.Proto.Fields.{read_at-varint, tag_parts}

-- The tag and the length of a length-delimited field, in front of other bytes.
abbrev pub wrapped_field : ℕ → ℕ → Bytes → Bytes
wrapped_field number len after = varint (tag_of number 2) ++ (varint len ++ after)

module _ (number len : ℕ) (after : Bytes) (unknown : 3 < number) (small : number < 2 ^ 29)
    (back : length (varint (tag_of number 2)) + length (varint len) + len ≡ 2 ^ 32) where
  abbrev raw : Bytes
  raw = wrapped_field number len after

  some_bytes : 0 < length raw
  some_bytes = omega (
    arith,
    length-groups 9 (tag_of number 2),
    length-append (varint (tag_of number 2)) (varint len ++ after),
  )

  -- The end of the field is its own start.
  range_wraps :
      field_range raw (length (varint (tag_of number 2)))
      ≡ ok (length (varint (tag_of number 2)) + length (varint len), 0)
  unfolding field_range
  range_wraps =
      let wraps : usize (length (varint (tag_of number 2)) + length (varint len) + usize len) ≡ 0 =
        omega (arith, back, length-groups 9 len) in
      rw (read_at-varint (varint (tag_of number 2)) len after (omega (arith, back)), wraps)

  round_wraps : (r : HttpResponse) → fields_round response_arm raw 0 r ≡ ok (again 0 r)
  unfolding fields_round response_arm skip_arm
  round_wraps r =
      let (wire, same) = tag_parts number 2 small (omega arith) in
      let start : 0 + length (varint (tag_of number 2)) ≡ length (varint (tag_of number 2)) =
        omega arith in
      let not_status : (number == 1) ≡ false = ground (arith, unknown) in
      let not_header : (number == 2) ≡ false = ground (arith, unknown) in
      let not_body : (number == 3) ≡ false = ground (arith, unknown) in
      rw (
        read_at-varint [] (tag_of number 2) (varint len ++ after) (omega (arith, small)),
        wire,
        same,
        not_status,
        not_header,
        not_body,
        start,
        range_wraps,
      )

  loop_hangs : (fuel : ℕ) (r : HttpResponse) → fields_loop response_arm fuel raw 0 r ≡ stuck
  unfolding fields_loop
  loop_hangs zero r = rw (lt→ltb 0 (length raw) some_bytes)
  loop_hangs (suc fuel) r = rw (lt→ltb 0 (length raw) some_bytes, round_wraps r) (loop_hangs fuel r)

-- An answer that starts with an unknown length-delimited field, whose length takes its end back to
-- the answer's start, is never decoded: the loop runs out of every amount of fuel.
pub decode_http_response_hangs :
    (number len fuel : ℕ) (after : Bytes)
    → 3 < number
    → number < 2 ^ 29
    → length (varint (tag_of number 2)) + length (varint len) + len ≡ 2 ^ 32
    → fields_loop response_arm fuel (wrapped_field number len after) 0 empty_response ≡ stuck
decode_http_response_hangs number len fuel after unknown small back =
    loop_hangs number len after unknown small back fuel empty_response
