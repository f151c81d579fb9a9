-- ===== src/Http/Proto/Fields.antt =====
-- The loop that both decoders of wasm/http-bridge/src/lib.rs have, on the fields of a well-formed
-- message, and its arms for a length-delimited field and for a field that is skipped.
use grpcgi.Base.{ℕ, zero, suc, ◌+◌, ◌*◌, ◌/◌, ◌^◌, ◌≤◌, ◌<◌, arith, ◌≡◌, refl, sym, ◌∙◌}
use grpcgi.Base.{Bool, true, false, List, [], ◌∷◌, ◌++◌, length, length-append, append_assoc}
use grpcgi.Base.{drop-append_self, Outcome, ok, All, le→not_ltb, lt→ltb, leb, bit_and}
use grpcgi.Base.{if◌then◌else◌, panic}
use grpcgi.Base.Bits.{bit_and-0x07}
use grpcgi.Base.Machine.{Bytes, IsSlice, IsU64, u32, usize, slice, slice-append}
use grpcgi.Wire.Varint.{varint}
use grpcgi.Wire.Fields.{Field, varint_field, fixed64_field, len_field, fixed32_field, IsField}
use grpcgi.Wire.Fields.{
  field_number, wire_type, content_bytes, field_tag, field_bytes, message_bytes, length-field_bytes,
}
use grpcgi.Http.Varint.Laws.{read_varint-varint}
use grpcgi.Http.Proto.{Round, stop, again, read_at, fields_round, fields_loop, field_range}

-- Reading a varint at the end of `before`.
pub read_at-varint :
    (before : Bytes) (v : ℕ) (rest : Bytes)
    → IsU64 v
    → read_at (before ++ (varint v ++ rest)) (length before) ≡ ok (v, length (varint v))
unfolding read_at
read_at-varint before v rest h =
    let more = length-append before (varint v ++ rest) in
    let inside : leb (length before) (length (before ++ (varint v ++ rest))) ≡ true =
      ground (arith, more) in
    rw (drop-append_self before (varint v ++ rest), inside) (read_varint-varint v rest h)

pub tag_parts :
    (n w : ℕ)
    → n < 2 ^ 29
    → w < 8
    → (u32 (bit_and (n * 8 + w) 0x07) ≡ w) × (u32 ((n * 8 + w) / 8) ≡ n)
tag_parts n w hn hw = omega (arith, bit_and-0x07 (n * 8 + w))

wire_type-lt : (f : Field) → wire_type f < 8
wire_type-lt (varint_field n v) = omega arith
wire_type-lt (fixed64_field n c) = omega arith
wire_type-lt (len_field n c) = omega arith
wire_type-lt (fixed32_field n c) = omega arith

module _ (before after c : Bytes)
    (small : IsSlice (before ++ (varint (length c) ++ (c ++ after)))) where
  -- Where the content of a length-delimited field starts.
  abbrev pub content_start : ℕ
  content_start = length before + length (varint (length c))

  content_fits : content_start + length c ≤ length (before ++ (varint (length c) ++ (c ++ after)))
  content_fits = omega (
    arith,
    length-append before (varint (length c) ++ (c ++ after)),
    length-append (varint (length c)) (c ++ after),
    length-append c after,
  )

  pub field_range-len :
      field_range (before ++ (varint (length c) ++ (c ++ after))) (length before)
      ≡ ok (content_start, content_start + length c)
  unfolding field_range
  field_range-len =
      let exact : usize (content_start + usize (length c)) ≡ content_start + length c =
        omega (arith, content_fits) in
      rw (read_at-varint before (length c) (c ++ after) (omega (arith, content_fits)), exact)

  pub content_slice :
      slice (before ++ (varint (length c) ++ (c ++ after))) content_start (content_start + length c)
      ≡ ok c
  content_slice = rw (← append_assoc before (varint (length c)) (c ++ after)) (
      slice-append (before ++ varint (length c)) c after _ _
        (omega (arith, length-append before (varint (length c))))
        (omega (arith, length-append before (varint (length c)))))

  pub content_end : content_start + length c ≡ length before + length (varint (length c) ++ c)
  content_end = omega (arith, length-append (varint (length c)) c)

module _ {A : Type 0} (arm : Bytes → ℕ → ℕ → ℕ → A → Outcome (Round A)) (goes_on : Field → Bool)
    (apply : Field → A → A) where
  -- What a field's arm should do where the field's content stands at the end of `before`.
  abbrev pub round_of : Field → ℕ → A → Round A
  round_of f end a = if goes_on f then again end (apply f a) else stop a

  -- The fields that the loop reaches, applied in order.
  abbrev pub run_fields : List Field → A → A
  run_fields [] a = a
  run_fields (f ∷ fs) a = if goes_on f then run_fields fs (apply f a) else a

  -- The arm reads this field as it should, wherever it stands.
  abbrev pub ReadsField : Field → Type 0
  ReadsField f =
      (before after : Bytes) (a : A)
      → IsSlice (before ++ (content_bytes f ++ after))
      → arm (before ++ (content_bytes f ++ after)) (length before) (field_number f) (wire_type f) a
        ≡ ok (round_of f (length before + length (content_bytes f)) a)

  round-field_bytes :
      (f : Field) (before after : Bytes) (a : A)
      → IsField f
      → ReadsField f
      → IsSlice (before ++ (field_bytes f ++ after))
      → fields_round arm (before ++ (field_bytes f ++ after)) (length before) a
        ≡ ok (round_of f (length (before ++ field_bytes f)) a)
  unfolding fields_round
  round-field_bytes f before after a valid reads small =
      let tag = varint (field_tag f) in
      let (wire, number) =
        tag_parts (field_number f) (wire_type f) valid.number_lt (wire_type-lt f) in
      let start : length before + length tag ≡ length (before ++ tag) =
        sym (length-append before tag) in
      let inside : IsSlice ((before ++ tag) ++ (content_bytes f ++ after)) =
        rw (append_assoc before tag (content_bytes f ++ after))
          (rw (append_assoc tag (content_bytes f) after) at small) in
      let total : length (before ++ tag) + length (content_bytes f)
          ≡ length (before ++ field_bytes f) =
        omega (
          arith,
          length-append before tag,
          length-append before (field_bytes f),
          length-append tag (content_bytes f),
        ) in
      rw (
        append_assoc tag (content_bytes f) after,
        read_at-varint before (field_tag f) (content_bytes f ++ after)
            (omega (arith, wire_type-lt f, valid.number_lt)),
        wire,
        number,
        start,
        ← append_assoc before tag (content_bytes f ++ after),
        reads (before ++ tag) after a inside,
        total,
      )

  loop_done :
      (fuel : ℕ) (raw : Bytes) (pos : ℕ) (a : A)
      → length raw ≤ pos
      → fields_loop arm fuel raw pos a ≡ ok a
  unfolding fields_loop
  loop_done zero raw pos a h = rw (le→not_ltb pos (length raw) h)
  loop_done (suc fuel) raw pos a h = rw (le→not_ltb pos (length raw) h)

  -- One round of the loop on a field.
  loop-round :
      (goes : Bool) (fuel : ℕ) (raw : Bytes) (pos end : ℕ) (a a' : A)
      → pos < length raw
      → fields_round arm raw pos a ≡ ok (if goes then again end a' else stop a)
      → fields_loop arm (suc fuel) raw pos a
        ≡ (if goes then fields_loop arm fuel raw end a' else ok a)
  unfolding fields_loop
  loop-round true fuel raw pos end a a' h e = rw (lt→ltb pos (length raw) h, e)
  loop-round false fuel raw pos end a a' h e = rw (lt→ltb pos (length raw) h, e)

  -- The loop on the fields behind `before`.
  pub loop-message_bytes :
      (fs : List Field) (fuel : ℕ) (before : Bytes) (a : A)
      → All IsField fs
      → All ReadsField fs
      → IsSlice (before ++ message_bytes fs)
      → length (message_bytes fs) ≤ fuel
      → fields_loop arm fuel (before ++ message_bytes fs) (length before) a ≡ ok (run_fields fs a)
  loop-message_bytes [] fuel before a valid reads small enough =
      loop_done fuel _ (length before) a (omega (arith, length-append before (message_bytes [])))
  loop-message_bytes (f ∷ fs) zero before a valid reads small enough =
      absurd (omega (arith, length-append (field_bytes f) (message_bytes fs), length-field_bytes f))
  loop-message_bytes (f ∷ fs) (suc fuel) before a valid reads small enough =
      let sum = length-append (field_bytes f) (message_bytes fs) in
      let more = length-append before (field_bytes f ++ message_bytes fs) in
      let later : fields_loop arm fuel (before ++ (field_bytes f ++ message_bytes fs))
            (length (before ++ field_bytes f)) (apply f a)
          ≡ ok (run_fields fs (apply f a)) =
        rw (← append_assoc before (field_bytes f) (message_bytes fs)) (
          loop-message_bytes fs fuel (before ++ field_bytes f) (apply f a) valid.1 reads.1
            (rw append_assoc small) (omega (arith, sum, length-field_bytes f))) in
      loop-round (goes_on f) fuel _ (length before) _ a (apply f a)
        (omega (arith, sum, more, length-field_bytes f))
        (round-field_bytes f before (message_bytes fs) a valid.0 reads.0 small)
      ∙ rw later (either (goes_on f) (run_fields fs (apply f a)))
    where
      either : (goes : Bool) (b : A) → (if goes then ok b else ok a) ≡ ok (if goes then b else a)
      either true b = refl
      either false b = refl

-- A round that panics makes the loop panic.
pub loop_panics :
    {A : Type 0} (arm : Bytes → ℕ → ℕ → ℕ → A → Outcome (Round A)) (fuel : ℕ) (raw : Bytes)
    (pos : ℕ) (a : A)
    → pos < length raw
    → fields_round arm raw pos a ≡ panic
    → fields_loop arm (suc fuel) raw pos a ≡ panic
unfolding fields_loop
loop_panics arm fuel raw pos a h e = rw (lt→ltb pos (length raw) h, e)
