-- ===== src/Ws/FrameCodec/Bounds.antt =====
-- What `parse_ws_frame` consumes, and when it panics.
use grpcgi.Base.{ℕ, suc, ◌+◌, ◌-◌, ◌%◌, ◌^◌, ◌≤◌, ◌<◌, arith, ◌≡◌, refl, sym, ap, ◌∙◌}
use grpcgi.Base.{Bool, true, false, not, [], ◌∷◌, length, take, drop, bit_and, inl, inr}
use grpcgi.Base.{if◌then◌else◌, Bool-cases, ltb, leb, ◌==◌, ok, nothing, panic}
use grpcgi.Base.{
  >>=-eq-ok, ltb→lt, not_ltb→le, leb→le, not_leb→lt, length-take, length-drop, Outcome,
}
use grpcgi.Base.Machine.{Bytes, usize, slice-eq-ok, slice-eq-panic, get_elem?-lt}
use grpcgi.Ws.FrameCodec.{
  MaskKey, xor_key, payload_length, unmask_payload, take_payload, parse_ws_frame,
}
use grpcgi.Ws.FrameCodec.Parse.{parse_ws_frame-cons_cons}

-- The lengths that the header declares lie within the buffer.
pub record Declares (buf : Bytes) (len offset : ℕ) : Type 0 where
  pub len_lt : len < 2 ^ 32
  pub offset_ge : 2 ≤ offset
  pub offset_le : offset ≤ 10
  pub in_buf : offset ≤ length buf

pub payload_length-Declares :
    (buf : Bytes) (n len offset : ℕ)
    → 2 ≤ length buf
    → n < 128
    → payload_length buf n ≡ ok (len, offset)
    → Declares buf len offset
unfolding payload_length
payload_length-Declares buf n len offset two small e = ground arith

length-xor_key : (key : MaskKey) (i : ℕ) (raw : Bytes) → length (xor_key key i raw) ≡ length raw
unfolding xor_key
length-xor_key key i [] = refl
length-xor_key key i (b ∷ bs) = ap suc (length-xor_key key (i + 1) bs)

unmask_payload-length :
    (buf : Bytes) (masked : Bool) (offset : ℕ) (raw : Bytes)
    → (if masked then offset + 4 else offset) ≤ length buf
    → (payload : Bytes) × (unmask_payload buf masked offset raw ≡ ok payload)
      × (length payload ≡ length raw)
unmask_payload-length buf false offset raw h = (raw, unfold unmask_payload in refl, refl)
unmask_payload-length buf true offset raw h =
    let (k0, e0) = get_elem?-lt buf offset (omega arith) in
    let (k1, e1) = get_elem?-lt buf (offset + 1) (omega arith) in
    let (k2, e2) = get_elem?-lt buf (offset + 2) (omega arith) in
    let (k3, e3) = get_elem?-lt buf (offset + 3) (omega arith) in
    let key : MaskKey = record { k0 = k0; k1 = k1; k2 = k2; k3 = k3 } in
    (xor_key key 0 raw, unfold unmask_payload in rw (e0, e1, e2, e3), length-xor_key key 0 raw)

pub start_small :
    (masked : Bool) (offset : ℕ) → offset ≤ 10 → (if masked then offset + 4 else offset) ≤ 14
start_small masked offset h = ground arith

start_large : (masked : Bool) (offset : ℕ) → offset ≤ (if masked then offset + 4 else offset)
start_large masked offset = ground arith

-- The three answers of `take_payload`, on unbounded numbers.
pub data Taken (buf : Bytes) (opcode start len : ℕ) (r : Outcome (ℕ × Bytes × ℕ)) : Type 0 where
  incomplete : r ≡ nothing → length buf < start + len → Taken buf opcode start len r
  frame :
      (payload : Bytes)
      → r ≡ ok (opcode, payload, start + len)
      → length payload ≡ len
      → start + len ≤ length buf
      → Taken buf opcode start len r
  overflows : r ≡ panic → 2 ^ 32 ≤ start + len → Taken buf opcode start len r

pub take_payload-Taken :
    (buf : Bytes) (opcode : ℕ) (masked : Bool) (len offset : ℕ)
    → Declares buf len offset
    → Taken buf opcode
        (if masked then offset + 4 else offset)
        len
        (take_payload buf opcode masked len offset)
unfolding take_payload
take_payload-Taken buf opcode masked len offset d =
    let start = if masked then offset + 4 else offset in
    let total = usize (start + len) in
    let start_le : start ≤ 14 = start_small masked offset d.offset_le in
    elim (Bool-cases (ltb (length buf) total)) [
      | inl short ↦
          let short_lt : length buf < total = ltb→lt (length buf) total short in
          incomplete (rw short) (omega (arith, d.len_lt))
      | inr long ↦
          let fits : total ≤ length buf = not_ltb→le (length buf) total long in
          elim (Bool-cases (leb start total)) [
            | inl inside ↦
                let below : start ≤ total = leb→le start total inside in
                let exact : total ≡ start + len = omega (arith, d.len_lt) in
                let raw : Bytes = take (total - start) (drop start buf) in
                let (payload, unmasked, same) =
                  unmask_payload-length buf masked offset raw (omega arith) in
                frame payload (rw (long, slice-eq-ok buf start total below fits, unmasked, exact))
                  (omega
                    (arith, length-take (total - start) (drop start buf), length-drop start buf))
                  (omega arith)
            | inr outside ↦
                let above : total < start = not_leb→lt start total outside in
                overflows (rw (long, slice-eq-panic buf start total above))
                  (omega (arith, d.len_lt))
          ]
    ]

Taken-ok :
    (buf : Bytes) (op start len : ℕ) (r : Outcome (ℕ × Bytes × ℕ)) (opcode : ℕ) (payload : Bytes)
    (n : ℕ)
    → Taken buf op start len r
    → r ≡ ok (opcode, payload, n)
    → (opcode ≡ op) × (n ≡ start + length payload) × (n ≤ length buf)
Taken-ok buf op start len r opcode payload n (incomplete e _) h = cc
Taken-ok buf op start len r opcode payload n (frame p e same fits) h = ground arith
Taken-ok buf op start len r opcode payload n (overflows e _) h = cc

-- A frame that is parsed takes 2 to 14 bytes more than its payload, all of them in the buffer, and
-- its opcode has four bits.
pub parse_ws_frame_takes :
    (buf : Bytes) (opcode : ℕ) (payload : Bytes) (n : ℕ)
    → parse_ws_frame buf ≡ ok (opcode, payload, n)
    → (opcode < 16) × (length payload + 2 ≤ n) × (n ≤ length payload + 14) × (n ≤ length buf)
parse_ws_frame_takes [] opcode payload n e = unfold parse_ws_frame in cc
parse_ws_frame_takes (b0 ∷ []) opcode payload n e = unfold parse_ws_frame in cc
parse_ws_frame_takes (b0 ∷ b1 ∷ l) opcode payload n e =
    let buf : Bytes = b0 ∷ b1 ∷ l in
    let masked = not (bit_and b1 0x80 == 0) in
    let ((len, offset), header, body) =
      >>=-eq-ok _ _ (sym (parse_ws_frame-cons_cons b0 b1 l) ∙ e) in
    let d = payload_length-Declares buf (b1 % 128) len offset (omega arith) (omega arith) header in
    let taken =
      Taken-ok buf (b0 % 16) _ len _ opcode payload n
        (take_payload-Taken buf (b0 % 16) masked len offset d) body in
    omega
      (arith, taken, d.offset_ge, start_small masked offset d.offset_le, start_large masked offset)
