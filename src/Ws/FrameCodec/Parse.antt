-- ===== src/Ws/FrameCodec/Parse.antt =====
-- `parse_ws_frame` on any bytes: what it consumes, that it does not look past the frame, and when
-- it panics.
use grpcgi.Base.{>>=_keeps, ◌>>=◌}
use grpcgi.Base.{ℕ, suc, ◌+◌, ◌%◌, ◌≤◌, ◌<◌, arith, ◌≡◌, ◌≢◌, refl, sym, ◌∙◌}
use grpcgi.Base.{Bool, true, false, not, [], ◌∷◌, ◌++◌, length, bit_and, inl, inr}
use grpcgi.Base.{
  length-append, le→not_ltb, not_ltb→le, leb→le, if◌then◌else◌, Bool-cases, ltb, leb, ◌==◌, nothing,
}
use grpcgi.Base.Bits.{bit_and-0x0f, bit_and-0x7f}
use grpcgi.Base.Machine.{Bytes, usize, slice-eq-ok, get_elem?-append_lt, slice-append_le}
use grpcgi.Ws.FrameCodec.{payload_length, unmask_payload, take_payload, parse_ws_frame}

payload_length-append :
    (buf more : Bytes) (n : ℕ)
    → payload_length buf n ≢ nothing
    → payload_length (buf ++ more) n ≡ payload_length buf n
unfolding payload_length
payload_length-append buf more n some_answer = elim (Bool-cases (n == 126)) [
  | inl two ↦ elim (Bool-cases (ltb (length buf) 4)) [
    | inl short ↦ absurd (some_answer (rw (two, short)))
    | inr long ↦ rw (
      two,
      long,
      le→not_ltb (length (buf ++ more)) 4 (longer 4 long),
      get_elem?-append_lt buf more 2 (within 4 long 2 (omega arith)),
      get_elem?-append_lt buf more 3 (within 4 long 3 (omega arith)),
    )
  ]
  | inr other ↦ elim (Bool-cases (n == 127)) [
    | inl eight ↦ elim (Bool-cases (ltb (length buf) 10)) [
      | inl short ↦ absurd (some_answer (rw (other, eight, short)))
      | inr long ↦ rw (
        other,
        eight,
        long,
        le→not_ltb (length (buf ++ more)) 10 (longer 10 long),
        get_elem?-append_lt buf more 2 (within 10 long 2 (omega arith)),
        get_elem?-append_lt buf more 3 (within 10 long 3 (omega arith)),
        get_elem?-append_lt buf more 4 (within 10 long 4 (omega arith)),
        get_elem?-append_lt buf more 5 (within 10 long 5 (omega arith)),
        get_elem?-append_lt buf more 6 (within 10 long 6 (omega arith)),
        get_elem?-append_lt buf more 7 (within 10 long 7 (omega arith)),
        get_elem?-append_lt buf more 8 (within 10 long 8 (omega arith)),
        get_elem?-append_lt buf more 9 (within 10 long 9 (omega arith)),
      )
    ]
    | inr small ↦ rw (other, small)
  ]
]
  where
    longer : (k : ℕ) → ltb (length buf) k ≡ false → k ≤ length (buf ++ more)
    longer k long = omega (arith, not_ltb→le (length buf) k long, length-append buf more)

    within : (k : ℕ) → ltb (length buf) k ≡ false → (i : ℕ) → i < k → i < length buf
    within k long i h = omega (arith, not_ltb→le (length buf) k long)

unmask_payload-append :
    (buf more raw : Bytes) (masked : Bool) (offset : ℕ)
    → (if masked then offset + 4 else offset) ≤ length buf
    → unmask_payload (buf ++ more) masked offset raw ≡ unmask_payload buf masked offset raw
unfolding unmask_payload
unmask_payload-append buf more raw false offset h = refl
unmask_payload-append buf more raw true offset h = rw (
  get_elem?-append_lt buf more offset (omega arith),
  get_elem?-append_lt buf more (offset + 1) (omega arith),
  get_elem?-append_lt buf more (offset + 2) (omega arith),
  get_elem?-append_lt buf more (offset + 3) (omega arith),
)

take_payload-append :
    (buf more : Bytes) (opcode : ℕ) (masked : Bool) (len offset : ℕ)
    → take_payload buf opcode masked len offset ≢ nothing
    → take_payload (buf ++ more) opcode masked len offset
      ≡ take_payload buf opcode masked len offset
unfolding take_payload
take_payload-append buf more opcode masked len offset some_answer =
    let start = if masked then offset + 4 else offset in
    let total = usize (start + len) in
    elim (Bool-cases (ltb (length buf) total)) [
      | inl short ↦ absurd (some_answer (rw short))
      | inr long ↦
          let fits : total ≤ length buf = not_ltb→le (length buf) total long in
          rw
            (
              long,
              le→not_ltb (length (buf ++ more)) total (omega (arith, length-append buf more)),
              slice-append_le buf more start total fits,
            )
            (elim (Bool-cases (leb start total)) [
              | inl inside ↦
                  let below : start ≤ total = leb→le start total inside in
                  rw (
                    slice-eq-ok buf start total below fits,
                    unmask_payload-append buf more _ masked offset (omega arith),
                  )
              | inr outside ↦ rw outside
            ])
    ]

-- The header byte by byte: the opcode and the mask bit, then the length, then the payload.
pub parse_ws_frame-cons_cons :
    (b0 b1 : ℕ) (l : Bytes)
    → parse_ws_frame (b0 ∷ b1 ∷ l) ≡ (
        payload_length (b0 ∷ b1 ∷ l) (b1 % 128) >>= λ p.
        take_payload (b0 ∷ b1 ∷ l) (b0 % 16) (not (bit_and b1 0x80 == 0)) p.0 p.1)
unfolding parse_ws_frame
parse_ws_frame-cons_cons b0 b1 l =
    let long : ltb (suc (suc (length l))) 2 ≡ false = ground arith in
    rw (long, bit_and-0x7f b1, bit_and-0x0f b0)

-- Once the parser gives any answer but "more bytes are needed", more bytes do not change it.
pub parse_ws_frame-append :
    (buf more : Bytes)
    → parse_ws_frame buf ≢ nothing
    → parse_ws_frame (buf ++ more) ≡ parse_ws_frame buf
parse_ws_frame-append [] more some_answer = absurd (some_answer (unfold parse_ws_frame in refl))
parse_ws_frame-append (b0 ∷ []) more some_answer =
    absurd (some_answer (unfold parse_ws_frame in refl))
parse_ws_frame-append (b0 ∷ b1 ∷ l) more some_answer =
    parse_ws_frame-cons_cons b0 b1 (l ++ more)
    ∙ >>=_keeps _ _ _ _ (payload_length-append (b0 ∷ b1 ∷ l) more (b1 % 128))
        (λ p. take_payload-append (b0 ∷ b1 ∷ l) more _ _ p.0 p.1)
        (λ e. some_answer (parse_ws_frame-cons_cons b0 b1 l ∙ e))
    ∙ sym (parse_ws_frame-cons_cons b0 b1 l)
