-- ===== src/Wire/Fields.antt =====
-- Protobuf messages as sequences of fields, and how each field stands on the wire.
use grpcgi.Base.{ℕ, ◌+◌, ◌*◌, ◌^◌, ◌≤◌, ◌<◌, ◌≡◌, arith, List, [], ◌∷◌, ◌++◌, length, length-append}
use grpcgi.Base.Machine.{Bytes, IsU64}
use grpcgi.Wire.Varint.{varint, length-groups}

-- A field by its wire type: 0, 1, 2 and 5. The groups of wire types 3 and 4 are deprecated.
pub data Field : Type 0 where
  varint_field : (number value : ℕ) → Field
  fixed64_field : (number : ℕ) (content : Bytes) → Field
  len_field : (number : ℕ) (content : Bytes) → Field
  fixed32_field : (number : ℕ) (content : Bytes) → Field

abbrev pub tag_of : ℕ → ℕ → ℕ
tag_of number wire = number * 8 + wire

abbrev pub field_number : Field → ℕ
field_number (varint_field n v) = n
field_number (fixed64_field n c) = n
field_number (len_field n c) = n
field_number (fixed32_field n c) = n

abbrev pub wire_type : Field → ℕ
wire_type (varint_field n v) = 0
wire_type (fixed64_field n c) = 1
wire_type (len_field n c) = 2
wire_type (fixed32_field n c) = 5

-- What stands behind the tag.
abbrev pub content_bytes : Field → Bytes
content_bytes (varint_field n v) = varint v
content_bytes (fixed64_field n c) = c
content_bytes (len_field n c) = varint (length c) ++ c
content_bytes (fixed32_field n c) = c

abbrev pub field_tag : Field → ℕ
field_tag f = tag_of (field_number f) (wire_type f)

abbrev pub field_bytes : Field → Bytes
field_bytes f = varint (field_tag f) ++ content_bytes f

abbrev pub message_bytes : List Field → Bytes
message_bytes [] = []
message_bytes (f ∷ fs) = field_bytes f ++ message_bytes fs

abbrev FitsWire : Field → Type 0
FitsWire (varint_field n v) = IsU64 v
FitsWire (fixed64_field n c) = length c ≡ 8
FitsWire (len_field n c) = length c < 2 ^ 31
FitsWire (fixed32_field n c) = length c ≡ 4

-- A field as protobuf allows it: its number has 29 bits and its content fits its wire type.
pub record IsField (f : Field) : Type 0 where
  pub number_lt : field_number f < 2 ^ 29
  pub fits : FitsWire f

pub length-field_bytes : (f : Field) → 1 ≤ length (field_bytes f)
length-field_bytes f =
    omega
      (arith, length-append (varint (field_tag f)) (content_bytes f), length-groups 9 (field_tag f))
