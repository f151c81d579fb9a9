-- ===== src/Wire.antt =====
-- The protobuf wire format, described apart from the two programs that read and write it.
pub mod Varint
pub mod Fields
