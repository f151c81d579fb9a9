-- ===== src/Ws/FrameProto/Arm.antt =====
-- `decode_arm` on the content of a well-formed field, behind its tag.
use grpcgi.Base.{ℕ, ◌+◌, ◌^◌, ◌≤◌, ◌<◌, arith, ◌≡◌}
use grpcgi.Base.{Bool, not, List, [], ◌∷◌, ◌++◌, length, length-append, append_assoc}
use grpcgi.Base.{◌==◌, if◌then◌else◌, ok, le→not_ltb}
use grpcgi.Base.Machine.{Bytes, IsSlice, usize, slice, slice-append}
use grpcgi.Wire.Varint.{varint}
use grpcgi.Wire.Fields.{Field, varint_field, fixed64_field, len_field, fixed32_field, IsField}
use grpcgi.Wire.Fields.{field_number, wire_type, content_bytes}
use grpcgi.Ws.Varint.Laws.{read_varint-varint}
use grpcgi.Ws.FrameProto.{field_end, skip_field, decode_arm}

-- What a field means for a `Frame { payload = 1; binary = 2 }`.
abbrev pub apply_field : Field → Bytes × Bool → Bytes × Bool
apply_field (varint_field n v) (payload, binary) =
    if n == 2 then (payload, not (v == 0)) else (payload, binary)
apply_field (fixed64_field n c) frame = frame
apply_field (len_field n c) (payload, binary) = if n == 1 then (c, binary) else (payload, binary)
apply_field (fixed32_field n c) frame = frame

abbrev pub apply_fields : List Field → Bytes × Bool → Bytes × Bool
apply_fields [] frame = frame
apply_fields (f ∷ fs) frame = apply_fields fs (apply_field f frame)

pub field_end_fits :
    (buf : Bytes) (i len : ℕ)
    → IsSlice buf
    → i + len ≤ length buf
    → field_end buf i len ≡ ok (i + len)
unfolding field_end
field_end_fits buf i len small h =
    let exact : usize (i + usize len) ≡ i + len = omega arith in
    rw (exact, le→not_ltb (length buf) (i + len) h)

module _ (before after : Bytes) where
  -- Where a piece of a message lies in the buffer.
  piece_fits : (piece : Bytes) → length before + length piece ≤ length (before ++ (piece ++ after))
  piece_fits piece = omega (arith, length-append before (piece ++ after), length-append piece after)

  module _ (c : Bytes) (small : IsSlice (before ++ (varint (length c) ++ (c ++ after)))) where
    -- The content of a length-delimited field, behind its length.
    content_start : ℕ
    content_start = length before + length (varint (length c))

    content_fits : content_start + length c ≤ length (before ++ (varint (length c) ++ (c ++ after)))
    unfolding content_start
    content_fits = omega (
      arith,
      length-append before (varint (length c) ++ (c ++ after)),
      length-append (varint (length c)) (c ++ after),
      length-append c after,
    )

    content_end :
        field_end (before ++ (varint (length c) ++ (c ++ after))) content_start (length c)
        ≡ ok (content_start + length c)
    content_end = field_end_fits _ content_start (length c) small content_fits

    content_slice :
        slice
          (before ++ (varint (length c) ++ (c ++ after)))
          content_start
          (content_start + length c)
        ≡ ok c
    unfolding content_start
    content_slice = rw (← append_assoc before (varint (length c)) (c ++ after)) (
        slice-append (before ++ varint (length c)) c after _ _
          (omega (arith, length-append before (varint (length c))))
          (omega (arith, length-append before (varint (length c)))))

    content_total : content_start + length c ≡ length before + length (varint (length c) ++ c)
    unfolding content_start
    content_total = omega (arith, length-append (varint (length c)) c)

  len_arm :
      (n : ℕ) (c payload : Bytes) (binary : Bool)
      → IsSlice (before ++ (varint (length c) ++ (c ++ after)))
      → length c < 2 ^ 31
      → let r = apply_field (len_field n c) (payload, binary) in
        decode_arm
          (before ++ (varint (length c) ++ (c ++ after)))
          (length before)
          n
          2
          payload
          binary
        ≡ ok (length before + length (varint (length c) ++ c), r.0, r.1)
  unfolding decode_arm skip_field content_start
  len_arm n c payload binary small short =
      rw
        (
          read_varint-varint before (length c) (c ++ after) (omega arith),
          content_end c small,
          content_slice c small,
          content_total c small,
        )
        (ground arith)

  -- The content of a field, behind its tag.
  pub arm-content :
      (f : Field) (payload : Bytes) (binary : Bool)
      → IsField f
      → IsSlice (before ++ (content_bytes f ++ after))
      → let r = apply_field f (payload, binary) in
        decode_arm
          (before ++ (content_bytes f ++ after))
          (length before)
          (field_number f)
          (wire_type f)
          payload
          binary
        ≡ ok (length before + length (content_bytes f), r.0, r.1)
  unfolding decode_arm skip_field
  arm-content (varint_field n v) payload binary valid small =
      rw (read_varint-varint before v after valid.fits) (ground arith)
  arm-content (fixed64_field n c) payload binary valid small =
      ground (arith, piece_fits c, valid.fits)
  arm-content (len_field n c) payload binary valid small =
      rw (append_assoc (varint (length c)) c after)
        (len_arm n c payload binary (rw append_assoc at small) valid.fits)
  arm-content (fixed32_field n c) payload binary valid small =
      ground (arith, piece_fits c, valid.fits)
