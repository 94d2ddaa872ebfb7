-- ===== src/Flac/Header/Number.antt =====
-- The coded frame number: a decoder after the FLAC format, and how far it undoes the encoder.
use baxters_stereo_mix_lin.Base.{
  ℕ, zero, suc, ◌+◌, ◌-◌, ◌*◌, ◌/◌, ◌%◌, ◌^◌, ◌≤◌, ◌<◌, ◌≡◌, refl, true, arith, bit_or, ltb, ◌==◌,
  if◌then◌else◌, ltb→lt, Bool-cases, inl, inr,
}
use baxters_stereo_mix_lin.Base.Bits.{bit_or_disjoint, bit_and_mask}
use baxters_stereo_mix_lin.Base.Table.{agree, agree→eq}
use baxters_stereo_mix_lin.Flac.BitWriter.{BitWriter, write_bits}
use baxters_stereo_mix_lin.Flac.BitWriter.Stream.{IsValid}
use baxters_stereo_mix_lin.Flac.Reader.{Reader, pure, refuse, ◌>>=◌, read}
use baxters_stereo_mix_lin.Flac.Reader.Emits.{Emits, emit_pure, emit_bind, emit-IsValid, emit_field}
use baxters_stereo_mix_lin.Flac.Header.{continuation, write_utf8_coded}

-- A byte `10xxxxxx`.
unfoldable pub read_continuation : Reader ℕ
read_continuation = do b ← read 8; if b / 64 == 2 then pure (b % 64) else refuse

-- `n` of them behind the bits of `acc`.
unfoldable pub read_continuations : ℕ → ℕ → Reader ℕ
read_continuations zero acc = pure acc
read_continuations (suc n) acc = do x ← read_continuation; read_continuations n (acc * 64 + x)

-- The lead byte says how many bytes follow, up to six.
unfoldable pub read_number_from : ℕ → Reader ℕ
read_number_from lead =
    if ltb lead 0x80
    then pure lead
    else if ltb lead 0xC0
    then refuse
    else if ltb lead 0xE0
    then read_continuations 1 (lead - 0xC0)
    else if ltb lead 0xF0
    then read_continuations 2 (lead - 0xE0)
    else if ltb lead 0xF8
    then read_continuations 3 (lead - 0xF0)
    else if ltb lead 0xFC
    then read_continuations 4 (lead - 0xF8)
    else if ltb lead 0xFE
    then read_continuations 5 (lead - 0xFC)
    else if ltb lead 0xFF
    then read_continuations 6 0
    else refuse

unfoldable pub read_number : Reader ℕ
read_number = read 8 >>= read_number_from

continuation_lem : (val shift : ℕ) → continuation val shift ≡ 128 + val / 2 ^ shift % 64
unfolding continuation
continuation_lem val shift =
    ground (arith, bit_and_mask 6 (val / 2 ^ shift), bit_or_disjoint 6 2 (val / 2 ^ shift % 64))

emit_continuation :
    (w : BitWriter) (val shift : ℕ)
    → IsValid w
    → Emits w (write_bits w (continuation val shift) 8) read_continuation (val / 2 ^ shift % 64)
unfolding read_continuation
emit_continuation w val shift v =
    rw (continuation_lem val shift)
      (emit_bind _ byte (rw (top, low) (emit_pure _ x (emit-IsValid byte))))
  where
    x : ℕ
    x = val / 2 ^ shift % 64

    byte : Emits w (write_bits w (128 + x) 8) (read 8) (128 + x)
    byte = emit_field w (128 + x) 8 v (omega arith)

    top : ((128 + x) / 64 == 2) ≡ true
    top = ground arith

    low : (128 + x) % 64 ≡ x
    low = omega arith

emit_more :
    {u w : BitWriter} (n acc val shift next : ℕ)
    → next ≡ acc * 64 + val / 2 ^ shift % 64
    → (v : IsValid u)
    → Emits (write_bits u (continuation val shift) 8) w (read_continuations n next) val
    → Emits u w (read_continuations (suc n) acc) val
unfolding read_continuations
emit_more {u} n acc val shift next e v later =
    emit_bind _ (emit_continuation u val shift v) (rw e at later)

lead_two : (x : ℕ) → x < 32 → read_number_from (192 + x) ≡ read_continuations 1 x
unfolding read_number_from
lead_two x h = ground arith

lead_three : (x : ℕ) → x < 16 → read_number_from (224 + x) ≡ read_continuations 2 x
unfolding read_number_from
lead_three x h = ground arith

lead_four : (x : ℕ) → x < 8 → read_number_from (240 + x) ≡ read_continuations 3 x
unfolding read_number_from
lead_four x h = ground arith

lead_five : (x : ℕ) → x < 4 → read_number_from (248 + x) ≡ read_continuations 4 x
unfolding read_number_from
lead_five x h = ground arith

module _ (val : ℕ) where
  abbrev put : ℕ → BitWriter → BitWriter
  put shift u = write_bits u (continuation val shift) 8

  put-IsValid : (shift : ℕ) (u : BitWriter) → IsValid u → IsValid (put shift u)
  put-IsValid shift u v = emit-IsValid (emit_continuation u val shift v)

  -- What is left of the value below 2 ^ 6, 2 ^ 12, 2 ^ 18 and 2 ^ 24.
  emit_6 : (u : BitWriter) → IsValid u → Emits u (put 0 u) (read_continuations 1 (val / 2 ^ 6)) val
  emit_6 u v =
      emit_more 0 (val / 2 ^ 6) val 0 val (omega arith) v
        (unfold read_continuations in emit_pure _ val (put-IsValid 0 u v))

  emit_12 :
      (u : BitWriter)
      → IsValid u
      → Emits u (put 0 (put 6 u)) (read_continuations 2 (val / 2 ^ 12)) val
  emit_12 u v =
      emit_more 1 (val / 2 ^ 12) val 6 (val / 2 ^ 6) (omega arith) v
        (emit_6 (put 6 u) (put-IsValid 6 u v))

  emit_18 :
      (u : BitWriter)
      → IsValid u
      → Emits u (put 0 (put 6 (put 12 u))) (read_continuations 3 (val / 2 ^ 18)) val
  emit_18 u v =
      emit_more 2 (val / 2 ^ 18) val 12 (val / 2 ^ 12) (omega arith) v
        (emit_12 (put 12 u) (put-IsValid 12 u v))

  emit_24 :
      (u : BitWriter)
      → IsValid u
      → Emits u (put 0 (put 6 (put 12 (put 18 u)))) (read_continuations 4 (val / 2 ^ 24)) val
  emit_24 u v =
      emit_more 3 (val / 2 ^ 24) val 18 (val / 2 ^ 18) (omega arith) v
        (emit_18 (put 18 u) (put-IsValid 18 u v))

-- A lead byte, and the continuations that the reader then expects.
emit_lead :
    (u : BitWriter) (next : BitWriter → BitWriter) (n val high lead pattern' : ℕ)
    → IsValid u
    → pattern' ≡ lead
    → lead < 2 ^ 8
    → read_number_from lead ≡ read_continuations n high
    → ((x : BitWriter) → IsValid x → Emits x (next x) (read_continuations n high) val)
    → Emits u (next (write_bits u pattern' 8)) read_number val
unfolding read_number
emit_lead u next n val high lead pattern' v e fits leads later =
    let byte = emit_field u lead 8 v fits in
    rw e (emit_bind _ byte (rw leads (later (write_bits u lead 8) (emit-IsValid byte))))

-- A frame number below 2 ^ 26 is read back.
pub write_utf8_coded-Emits :
    (w : BitWriter) (val : ℕ)
    → IsValid w
    → val < 2 ^ 26
    → Emits w (write_utf8_coded w val) read_number val
unfolding write_utf8_coded
write_utf8_coded-Emits w val v h = elim (Bool-cases (ltb val 0x80)) [
  | inl one ↦
      let small : val < 0x80 = ltb→lt val 0x80 one in
      rw one (
        unfold read_number read_number_from in
        (emit_bind _ (emit_field w val 8 v (omega arith))
          (rw one (emit_pure _ val (emit-IsValid (emit_field w val 8 v (omega arith)))))))
  | inr past_one ↦ elim (Bool-cases (ltb val 0x800)) [
    | inl two ↦
        let high : val / 2 ^ 6 < 32 = ground arith in
        rw (past_one, two)
          (emit_lead w _ 1 val (val / 2 ^ 6) (192 + val / 2 ^ 6) _ v (bit_or_disjoint 5 6 _ high)
            (omega arith) (lead_two _ high) (emit_6 val))
    | inr past_two ↦ elim (Bool-cases (ltb val 0x10000)) [
      | inl three ↦
          let high : val / 2 ^ 12 < 16 = ground arith in
          rw (past_one, past_two, three)
            (emit_lead w _ 2 val (val / 2 ^ 12) (224 + val / 2 ^ 12) _ v
              (bit_or_disjoint 4 14 _ high) (omega arith) (lead_three _ high) (emit_12 val))
      | inr past_three ↦ elim (Bool-cases (ltb val 0x200000)) [
        | inl four ↦
            let high : val / 2 ^ 18 < 8 = ground arith in
            rw (past_one, past_two, past_three, four)
              (emit_lead w _ 3 val (val / 2 ^ 18) (240 + val / 2 ^ 18) _ v
                (bit_or_disjoint 3 30 _ high) (omega arith) (lead_four _ high) (emit_18 val))
        | inr past_four ↦
            let high : val / 2 ^ 24 < 4 = ground arith in
            rw (past_one, past_two, past_three, past_four)
              (emit_lead w _ 4 val (val / 2 ^ 24) (248 + val / 2 ^ 24) _ v
                (bit_or_disjoint 2 62 _ high) (omega arith) (lead_five _ high) (emit_24 val))
      ]
    ]
  ]
]

-- `0xF8 | x` keeps three bits of a byte.
lead_bits : (x : ℕ) → x < 256 → bit_or 0xF8 x ≡ 248 + x % 8
unfolding agree
lead_bits = agree→eq (bit_or 0xF8) (λ x. 248 + x % 8) 256 refl

far_continuation :
    (val shift : ℕ)
    → (val + 2 ^ 27) / 2 ^ shift % 64 ≡ val / 2 ^ shift % 64
    → continuation (val + 2 ^ 27) shift ≡ continuation val shift
far_continuation val shift e = rw (continuation_lem, continuation_lem, e)

-- Frame numbers 2 ^ 27 apart are coded alike, from 2 ^ 21 on: the lead byte has room for 27 bits
-- of a number at most, and the code no sixth byte.
pub write_utf8_coded_collides :
    (w : BitWriter) (val : ℕ)
    → 2 ^ 21 ≤ val
    → val + 2 ^ 27 < 2 ^ 32
    → write_utf8_coded w (val + 2 ^ 27) ≡ write_utf8_coded w val
unfolding write_utf8_coded
write_utf8_coded_collides w val lo hi = ground (
  arith,
  lead_bits (val / 2 ^ 24) (omega arith),
  lead_bits ((val + 2 ^ 27) / 2 ^ 24) (omega arith),
  far_continuation val 0 (omega arith),
  far_continuation val 6 (omega arith),
  far_continuation val 12 (omega arith),
  far_continuation val 18 (omega arith),
)
