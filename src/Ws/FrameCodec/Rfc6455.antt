-- ===== src/Ws/FrameCodec/Rfc6455.antt =====
-- The frame format of RFC 6455, section 5.2, as a reference for the codec. The key rotates by one
-- byte for each byte of the payload.
use grpcgi.Base.{ℕ, ◌+◌, [], ◌∷◌, ◌++◌, length, ltb, if◌then◌else◌}
use grpcgi.Base.{Option, none, some, bit_xor}
use grpcgi.Base.Machine.{Bytes, to_be_bytes}
use grpcgi.Ws.FrameCodec.{MaskKey}

-- `first` is the byte with FIN, the reserved bits and the opcode.
pub record Frame : Type 0 where
  pub first : ℕ
  pub mask : Option MaskKey
  pub payload : Bytes

-- The mask bit and the payload's length, in the shortest of the three forms.
unfoldable pub length_bytes : ℕ → ℕ → Bytes
length_bytes mark len =
    if ltb len 126
    then (mark + len) ∷ []
    else if ltb len 65536
    then (mark + 126) ∷ to_be_bytes 2 len
    else (mark + 127) ∷ to_be_bytes 8 len

abbrev pub mask_mark : Option MaskKey → ℕ
mask_mark none = 0
mask_mark (some key) = 128

abbrev pub key_bytes : Option MaskKey → Bytes
key_bytes none = []
key_bytes (some key) = key.k0 ∷ key.k1 ∷ key.k2 ∷ key.k3 ∷ []

abbrev pub rotate : MaskKey → MaskKey
rotate key = record { k0 = key.k1; k1 = key.k2; k2 = key.k3; k3 = key.k0 }

unfoldable pub mask_with : MaskKey → Bytes → Bytes
mask_with key [] = []
mask_with key (b ∷ bs) = bit_xor b key.k0 ∷ mask_with (rotate key) bs

abbrev pub masked : Option MaskKey → Bytes → Bytes
masked none payload = payload
masked (some key) payload = mask_with key payload

-- A whole frame as it stands on the wire.
abbrev pub frame_bytes : Frame → Bytes
frame_bytes f =
    f.first
    ∷ (length_bytes (mask_mark f.mask) (length f.payload)
        ++ (key_bytes f.mask ++ masked f.mask f.payload))
