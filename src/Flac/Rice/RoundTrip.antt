-- ===== src/Flac/Rice/RoundTrip.antt =====
-- A decoder of the residual coding after the FLAC format, and that it undoes `encode_residuals`.
use baxters_stereo_mix_lin.Base.{
  ℕ, zero, suc, ◌+◌, ◌-◌, ◌*◌, ◌/◌, ◌%◌, ◌^◌, ◌≤◌, ◌≡◌, refl, List, arith, All, length, ltb, ◌==◌,
  if◌then◌else◌, bit_and, Bool-cases, inl, inr,
}
use baxters_stereo_mix_lin.Base.Bits.{bit_and_mask}
use baxters_stereo_mix_lin.Base.Int.{ℤ, pos, negsuc, InWidth}
use baxters_stereo_mix_lin.Flac.BitWriter.{BitWriter, write_bits, write_unary}
use baxters_stereo_mix_lin.Flac.BitWriter.Stream.{IsValid}
use baxters_stereo_mix_lin.Flac.Reader.{
  Reader, pure, ◌>>=◌, ◌>>◌, read, read_signed, read_zeros, expect, many,
}
use baxters_stereo_mix_lin.Flac.Reader.Emits.{
  Emits, emit_pure, emit_bind, emit-IsValid, emit_field, emit_const, emit_signed, emit_unary,
  emit_many,
}
use baxters_stereo_mix_lin.Flac.Rice.{
  fold_u32, choose_rice_param, max_quotient, write_raw, write_rice, encode_residuals,
}
use baxters_stereo_mix_lin.Flac.Rice.Parameter.{choose_rice_param-le}
use mathlib.Core.Path.{subst}
use mathlib.Core.Bool.{false}
use mathlib.Core.List.{foldl}
use native.Mathlib.Nat.{div-add-mod', mod-lt, one-le-pow}

-- Even values are the numbers from 0 up, odd ones those from -1 down.
unfoldable pub unfold_residual : ℕ → ℤ
unfold_residual n = if n % 2 == 0 then pos (n / 2) else negsuc (n / 2)

unfoldable pub read_rice : ℕ → Reader ℤ
read_rice k = do q ← read_zeros 0; r ← read k; pure (unfold_residual (q * 2 ^ k + r))

-- One partition: a 4-bit parameter, of which 15 announces raw residuals.
unfoldable pub read_partition : ℕ → ℕ → Reader (List ℤ)
read_partition n k =
    if k == 15 then (do raw ← read 5; many n (read_signed (raw - 1))) else many n (read_rice k)

unfoldable pub read_residuals : ℕ → Reader (List ℤ)
read_residuals n = do expect 2 0; expect 4 0; k ← read 4; read_partition n k

-- The integers of 17 bits.
abbrev pub IsResidual : ℤ → Type 0
IsResidual = InWidth 16

unfold-fold : (r : ℤ) → IsResidual r → unfold_residual (fold_u32 r) ≡ r
unfolding unfold_residual fold_u32
unfold-fold (pos n) h = ground arith
unfold-fold (negsuc n) h = ground arith

emit_raw :
    (w : BitWriter) (r : ℤ) → IsValid w → IsResidual r → Emits w (write_raw w r) (read_signed 16) r
unfolding write_raw
emit_raw w r v h = emit_signed w 16 r v (omega arith) h

low_part : (k f : ℕ) → bit_and f (1 * 2 ^ k - 1) ≡ f % 2 ^ k
low_part k f = let e : 1 * 2 ^ k ≡ 2 ^ k = omega arith in rw e (bit_and_mask k f)

emit_remainder :
    (k f : ℕ) (w : BitWriter)
    → IsValid w
    → Emits w
        (if ltb 0 k then write_bits w (bit_and f (1 * 2 ^ k - 1)) k else w)
        (read k)
        (f % 2 ^ k)
emit_remainder k f w v = elim (Bool-cases (ltb 0 k)) [
  | inl more ↦ rw (more, low_part k f) field
  | inr done ↦ rw done (subst (λ n. Emits w n (read k) (f % 2 ^ k)) (idle k (ground arith)) field)
]
  where
    field : Emits w (write_bits w (f % 2 ^ k) k) (read k) (f % 2 ^ k)
    field = emit_field w (f % 2 ^ k) k v (mod-lt f (one-le-pow k 2 (omega arith)))

    idle : (n : ℕ) → n ≡ 0 → write_bits w (f % 2 ^ k) n ≡ w
    idle zero e = unfold write_bits in refl
    idle (suc n) e = absurd (omega arith)

emit_rice :
    (k : ℕ) (w : BitWriter) (r : ℤ)
    → IsValid w
    → IsResidual r
    → Emits w (write_rice k w r) (read_rice k) r
unfolding write_rice read_rice
emit_rice k w r v h =
    emit_bind _ zeros (emit_bind _ remainder (rw back (emit_pure _ r (emit-IsValid remainder))))
  where
    f : ℕ
    f = fold_u32 r

    zeros : Emits w (write_unary w (f / 2 ^ k)) (read_zeros 0) (f / 2 ^ k)
    zeros = emit_unary w (f / 2 ^ k) v

    remainder :
        Emits
          (write_unary w (f / 2 ^ k))
          (if ltb 0 k
            then write_bits (write_unary w (f / 2 ^ k)) (bit_and f (1 * 2 ^ k - 1)) k
            else write_unary w (f / 2 ^ k))
          (read k)
          (f % 2 ^ k)
    remainder = emit_remainder k f (write_unary w (f / 2 ^ k)) (emit-IsValid zeros)

    back : unfold_residual (f / 2 ^ k * 2 ^ k + f % 2 ^ k) ≡ r
    back = rw (div-add-mod' f (2 ^ k)) (unfold-fold r h)

module _ (rs : List ℤ) (fit : All IsResidual rs) where
  emit_escape :
      (w : BitWriter)
      → IsValid w
      → Emits w
          (foldl write_raw (write_bits (write_bits w 0b1111 4) 17 5) rs)
          (read 4 >>= read_partition (length rs))
          rs
  unfolding read_partition
  emit_escape w v =
      let four = emit_field w 15 4 v (omega arith) in
      let five = emit_field _ 17 5 (emit-IsValid four) (omega arith) in
      emit_bind _ four (
        emit_bind _ five
          (emit_many IsResidual write_raw (read_signed 16) emit_raw rs _ (emit-IsValid five) fit))

  emit_coded :
      (k : ℕ) (w : BitWriter)
      → IsValid w
      → k ≤ 14
      → Emits w
          (foldl (write_rice k) (write_bits w k 4) rs)
          (read 4 >>= read_partition (length rs))
          rs
  unfolding read_partition
  emit_coded k w v le =
      let four = emit_field w k 4 v (omega arith) in
      let not_escape : (k == 15) ≡ false = ground arith in
      emit_bind _ four (
        rw not_escape (
          emit_many IsResidual (write_rice k) (read_rice k) (emit_rice k) rs _ (emit-IsValid four)
            fit))

  -- The residuals that `encode_residuals` writes are read back, each of 17 bits, with either
  -- method, Rice or raw.
  pub encode_residuals-Emits :
      (w : BitWriter) → IsValid w → Emits w (encode_residuals w rs) (read_residuals (length rs)) rs
  unfolding encode_residuals read_residuals
  encode_residuals-Emits w v =
      let two = emit_const w 0 2 v (omega arith) in
      let four = emit_const _ 0 4 (emit-IsValid two) (omega arith) in
      emit_bind _ two (
        emit_bind _ four (elim (Bool-cases (ltb 128 (max_quotient (choose_rice_param rs) rs))) [
          | inl large ↦ rw large (emit_escape _ (emit-IsValid four))
          | inr small ↦
              rw small
                (emit_coded (choose_rice_param rs) _ (emit-IsValid four) (choose_rice_param-le rs))
        ]))
