-- ===== src/Ws/FrameCodec/Unmask.antt =====
-- Unmasking takes the mask off, and the slices and bytes that it works on are in bounds.
use grpcgi.Base.{ℕ, suc, ◌+◌, ◌%◌, ◌≤◌, ◌<◌, ◌^◌, arith, ◌≡◌, refl, ap, ap₂, ◌∙◌}
use grpcgi.Base.{true, false, [], ◌∷◌, ◌++◌, length, none, some, Option, Bool}
use grpcgi.Base.{length-append, append_assoc, if◌then◌else◌, le→not_ltb, ok}
use native.Mathlib.Nat.{add-zero}
use grpcgi.Base.Bits.{bit_xor_undo}
use grpcgi.Base.Machine.{Bytes, usize, slice, slice-append, get_elem?-append}
use grpcgi.Ws.FrameCodec.{MaskKey, key_at, xor_key, unmask_payload, take_payload}
use grpcgi.Ws.FrameCodec.Rfc6455.{rotate, mask_with, key_bytes, masked}

-- `r` is the key rotated to index `i`.
record Aligned (key : MaskKey) (i : ℕ) (r : MaskKey) : Type 0 where
  at0 : r.k0 ≡ key_at key (i % 4)
  at1 : r.k1 ≡ key_at key ((i + 1) % 4)
  at2 : r.k2 ≡ key_at key ((i + 2) % 4)
  at3 : r.k3 ≡ key_at key ((i + 3) % 4)

Aligned-rotate :
    (key : MaskKey) (i : ℕ) (r : MaskKey) → Aligned key i r → Aligned key (i + 1) (rotate r)
Aligned-rotate key i r a = record {
  at0 = a.at1;
  at1 = a.at2 ∙ ap (key_at key) (omega arith);
  at2 = a.at3 ∙ ap (key_at key) (omega arith);
  at3 = a.at0 ∙ ap (key_at key) (omega arith);
}

xor_key-mask_with :
    (key : MaskKey) (i : ℕ) (r : MaskKey) (payload : Bytes)
    → Aligned key i r
    → xor_key key i (mask_with r payload) ≡ payload
unfolding xor_key mask_with
xor_key-mask_with key i r [] a = refl
xor_key-mask_with key i r (b ∷ bs) a =
    ap₂ ◌∷◌ (rw a.at0 (bit_xor_undo b _))
      (xor_key-mask_with key (i + 1) (rotate r) bs (Aligned-rotate key i r a))

pub length-mask_with :
    (key : MaskKey) (payload : Bytes) → length (mask_with key payload) ≡ length payload
unfolding mask_with
length-mask_with key [] = refl
length-mask_with key (b ∷ bs) = ap suc (length-mask_with (rotate key) bs)

abbrev pub is_masked : Option MaskKey → Bool
is_masked none = false
is_masked (some _) = true

pub length-masked :
    (m : Option MaskKey) (payload : Bytes) → length (masked m payload) ≡ length payload
length-masked none payload = refl
length-masked (some key) payload = length-mask_with key payload

unmask_payload-masked :
    (m : Option MaskKey) (head payload rest : Bytes)
    → unmask_payload
        (head ++ (key_bytes m ++ (masked m payload ++ rest)))
        (is_masked m)
        (length head)
        (masked m payload)
      ≡ ok payload
unfolding unmask_payload
unmask_payload-masked none head payload rest = refl
unmask_payload-masked (some key) head payload rest =
    let behind = λ (i : ℕ).
      get_elem?-append head (key_bytes (some key) ++ (mask_with key payload ++ rest)) i in
    let start : Aligned key 0 key = record { at0 = refl; at1 = refl; at2 = refl; at3 = refl } in
    rw (rw add-zero at (behind 0), behind 1, behind 2, behind 3)
      (ap ok (xor_key-mask_with key 0 key payload start))

key_offset :
    (m : Option MaskKey) (n : ℕ)
    → ((if is_masked m then n + 4 else n) ≡ n + length (key_bytes m)) × (length (key_bytes m) ≤ 4)
key_offset none n = omega arith
key_offset (some key) n = omega arith

-- Behind a front of `length head` bytes, `take_payload` reads the key and the payload.
pub take_payload-masked :
    (m : Option MaskKey) (head payload rest : Bytes) (opcode : ℕ)
    → length head + length payload + 4 < 2 ^ 32
    → take_payload
        (head ++ (key_bytes m ++ (masked m payload ++ rest)))
        opcode
        (is_masked m)
        (length payload)
        (length head)
      ≡ ok (opcode, payload, length head + length (key_bytes m) + length payload)
unfolding take_payload
take_payload-masked m head payload rest opcode small =
    let (offset, key_small) = key_offset m (length head) in
    rw (offset, no_wrap, le→not_ltb _ _ long, cut, unmask_payload-masked m head payload rest)
  where
    behind : Bytes
    behind = masked m payload ++ rest

    end : ℕ
    end = length head + length (key_bytes m) + length payload

    no_wrap : usize (length head + length (key_bytes m) + length payload) ≡ end
    no_wrap = omega (arith, key_offset m (length head))

    long : end ≤ length (head ++ (key_bytes m ++ behind))
    long = omega (
      arith,
      length-append head (key_bytes m ++ behind),
      length-append (key_bytes m) behind,
      length-append (masked m payload) rest,
      length-masked m payload,
    )

    cut :
        slice (head ++ (key_bytes m ++ behind)) (length head + length (key_bytes m)) end
        ≡ ok (masked m payload)
    cut = rw (← append_assoc head (key_bytes m) behind) (
        slice-append (head ++ key_bytes m) (masked m payload) rest _ _
          (omega (arith, length-append head (key_bytes m)))
          (omega (arith, length-append head (key_bytes m), length-masked m payload)))
