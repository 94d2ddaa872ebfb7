-- ===== src/Flac/Subframe/RoundTrip.antt =====
-- A decoder of subframes after the FLAC format, and that it undoes `encode_subframe`.
use baxters_stereo_mix_lin.Base.{
  ℕ, suc, ◌-◌, ◌*◌, ◌%◌, ◌^◌, ◌≤◌, ◌<◌, ◌≡◌, refl, sym, ap, ◌∙◌, true, List, [], ◌∷◌, arith, All,
  length, leb, ◌==◌, if◌then◌else◌, Bool-cases, inl, inr, replicate,
}
use baxters_stereo_mix_lin.Base.Int.{ℤ, pos, negsuc, InWidth, ℤ_eq→eq, ◌+ℤ◌, ◌-ℤ◌, +ℤ-sub}
use baxters_stereo_mix_lin.Flac.BitWriter.{BitWriter, write_bits}
use baxters_stereo_mix_lin.Flac.BitWriter.Stream.{IsValid}
use baxters_stereo_mix_lin.Flac.Reader.{
  Reader, pure, refuse, ◌>>=◌, ◌>>◌, read, read_signed, expect, many,
}
use baxters_stereo_mix_lin.Flac.Reader.Emits.{
  Emits, emit_pure, emit_bind, emit-IsValid, emit_field, emit_const, emit_signed, emit_many,
}
use baxters_stereo_mix_lin.Flac.Rice.{encode_residuals}
use baxters_stereo_mix_lin.Flac.Rice.RoundTrip.{read_residuals, encode_residuals-Emits, IsResidual}
use baxters_stereo_mix_lin.Flac.Subframe.{
  mask, write_sample, all_equal, differences, encode_subframe_fixed1, encode_subframe,
}
use mathlib.Core.List.{foldl}
use mathlib.Core.Path.{subst}
use native.Mathlib.Nat.{pow-le-pow_right, pow-suc}

-- First-order prediction undone: running sums.
unfoldable pub integrate : ℤ → List ℤ → List ℤ
integrate before [] = []
integrate before (r ∷ rest) = (before +ℤ r) ∷ integrate (before +ℤ r) rest

-- `n` samples of `w + 1` bits, by the subframe type.
unfoldable pub read_body : ℕ → ℕ → ℕ → Reader (List ℤ)
read_body n w kind =
    if kind == 0
    then (do s ← read_signed w; pure (replicate n s))
    else if kind == 1
    then many n (read_signed w)
    else if kind == 9
    then (do s ← read_signed w; rs ← read_residuals (n - 1); pure (s ∷ integrate s rs))
    else refuse

unfoldable pub read_subframe : ℕ → ℕ → Reader (List ℤ)
read_subframe n w = do expect 1 0; kind ← read 6; expect 1 0; read_body n w kind

abbrev pub IsI16 : ℤ → Type 0
IsI16 = InWidth 15

integrate-differences : (before : ℤ) (xs : List ℤ) → integrate before (differences before xs) ≡ xs
unfolding integrate differences
integrate-differences before [] = refl
integrate-differences before (x ∷ xs) =
    rw (+ℤ-sub before x) (ap (λ t. x ∷ t) (integrate-differences x xs))

length-differences : (before : ℤ) (xs : List ℤ) → length (differences before xs) ≡ length xs
unfolding differences
length-differences before [] = refl
length-differences before (x ∷ xs) = ap suc (length-differences x xs)

difference-IsResidual : (a b : ℤ) → IsI16 a → IsI16 b → IsResidual (a -ℤ b)
unfolding ◌-ℤ◌
difference-IsResidual (pos a) (pos b) h k = ground arith
difference-IsResidual (pos a) (negsuc b) h k = ground arith
difference-IsResidual (negsuc a) (pos b) h k = ground arith
difference-IsResidual (negsuc a) (negsuc b) h k = ground arith

differences-IsResidual :
    (before : ℤ) (xs : List ℤ)
    → IsI16 before
    → All IsI16 xs
    → All IsResidual (differences before xs)
unfolding differences
differences-IsResidual before [] h all = tt
differences-IsResidual before (x ∷ xs) h all =
    (difference-IsResidual x before all.0 h, differences-IsResidual x xs all.0 all.1)

all_equal→replicate : (s : ℤ) (xs : List ℤ) → all_equal s xs ≡ true → xs ≡ replicate (length xs) s
unfolding all_equal
all_equal→replicate s [] h = refl
all_equal→replicate s (x ∷ xs) h = ground (arith, ℤ_eq→eq x s, all_equal→replicate s xs)

wide : (n w : ℕ) → 15 ≤ w → n < 2 ^ 15 → n < 2 ^ w
wide n w le h = omega (arith, pow-le-pow_right {n = 2} (omega arith) le)

InWidth-mono : (w : ℕ) (z : ℤ) → 15 ≤ w → IsI16 z → InWidth w z
InWidth-mono w (pos n) le h = wide n w le h
InWidth-mono w (negsuc n) le h = wide n w le h

mask-ones : (w : ℕ) → w < 63 → mask (suc w) ≡ 2 ^ suc w - 1
unfolding mask
mask-ones w h =
    let small : suc w % 64 ≡ suc w = omega (arith, h) in
    let half : suc w ≤ 63 = omega (arith, h) in
    let below : 2 ^ suc w < 2 ^ 64 =
      omega (arith, pow-suc 2 63, pow-le-pow_right {n = 2} (omega arith) half) in
    ap (λ n. 1 * 2 ^ n % 2 ^ 64 - 1) small ∙ omega (arith, below)

-- A sample size of `w + 1` bits, wide enough for an `i16`, and below that of a word.
module _ (w : ℕ) (wide_enough : 15 ≤ w) (word : w < 63) where
  emit_sample :
      (u : BitWriter) (s : ℤ)
      → IsValid u
      → IsI16 s
      → Emits u (write_sample (suc w) u s) (read_signed w) s
  unfolding write_sample
  emit_sample u s v h =
      rw (mask-ones w word)
        (emit_signed u w s v (omega (arith, word)) (InWidth-mono w s wide_enough h))

  -- Padding bit, type and wasted-bits flag.
  emit_kind :
      (u : BitWriter) (next : BitWriter → BitWriter) (n kind : ℕ) (samples : List ℤ)
      → IsValid u
      → kind < 2 ^ 6
      → ((y : BitWriter) → IsValid y → Emits y (next y) (read_body n w kind) samples)
      → Emits u
          (next (write_bits (write_bits (write_bits u 0 1) kind 6) 0 1))
          (read_subframe n w)
          samples
  unfolding read_subframe
  emit_kind u next n kind samples v small body =
      let pad = emit_const u 0 1 v (omega arith) in
      let type = emit_field _ kind 6 (emit-IsValid pad) small in
      let wasted = emit_const _ 0 1 (emit-IsValid type) (omega arith) in
      emit_bind _ pad (emit_bind _ type (emit_bind _ wasted (body _ (emit-IsValid wasted))))

  module _ (first : ℤ) (rest : List ℤ) (fit : All IsI16 (first ∷ rest)) where
    abbrev samples : List ℤ
    samples = first ∷ rest

    emit_constant :
        (y : BitWriter)
        → IsValid y
        → all_equal first samples ≡ true
        → Emits y (write_sample (suc w) y first) (read_body (length samples) w 0) samples
    unfolding read_body
    emit_constant y v same =
        emit_bind (λ s. pure (replicate (length samples) s)) (emit_sample y first v fit.0)
          (subst (λ t. Emits y' y' (pure (replicate (length samples) first)) t)
            (sym (all_equal→replicate first samples same))
            (emit_pure y' _ (emit-IsValid (emit_sample y first v fit.0))))
      where
        y' : BitWriter
        y' = write_sample (suc w) y first

    emit_verbatim :
        (y : BitWriter)
        → IsValid y
        → Emits y (foldl (write_sample (suc w)) y samples) (read_body (length samples) w 1) samples
    unfolding read_body
    emit_verbatim y v =
        emit_many IsI16 (write_sample (suc w)) (read_signed w) emit_sample samples y v fit

    emit_differences :
        (y : BitWriter)
        → IsValid y
        → Emits y
            (encode_residuals y (differences first rest))
            (read_residuals (suc (length rest) - 1))
            (differences first rest)
    emit_differences y v =
        subst
          (λ n.
            Emits y (encode_residuals y (differences first rest)) (read_residuals n)
              (differences first rest))
          count
          (encode_residuals-Emits (differences first rest)
            (differences-IsResidual first rest fit.0 fit.1) y v)
      where
        count : length (differences first rest) ≡ suc (length rest) - 1
        count = length-differences first rest ∙ omega arith

    emit_fixed1 :
        (y : BitWriter)
        → IsValid y
        → Emits y
            (encode_residuals (write_sample (suc w) y first) (differences first rest))
            (read_body (length samples) w 9)
            samples
    unfolding read_body
    emit_fixed1 y v = emit_bind _ warm_up (
        emit_bind (λ rs. pure (first ∷ integrate first rs)) residuals
          (rw (integrate-differences first rest) (emit_pure _ samples (emit-IsValid residuals))))
      where
        y' : BitWriter
        y' = write_sample (suc w) y first

        warm_up : Emits y y' (read_signed w) first
        warm_up = emit_sample y first v fit.0

        residuals :
            Emits y'
              (encode_residuals y' (differences first rest))
              (read_residuals (suc (length rest) - 1))
              (differences first rest)
        residuals = emit_differences y' (emit-IsValid warm_up)

    -- Whatever form `encode_subframe` chooses for the samples of a channel, they are read back.
    pub encode_subframe-Emits :
        (u : BitWriter)
        → IsValid u
        → Emits u (encode_subframe u samples (suc w)) (read_subframe (length samples) w) samples
    unfolding encode_subframe encode_subframe_fixed1
    encode_subframe-Emits u v = elim (Bool-cases (all_equal first samples)) [
      | inl same ↦
          rw same (emit_kind u _ _ 0 samples v (omega arith) (λ y vy. emit_constant y vy same))
      | inr differ ↦ elim (Bool-cases (leb (length samples) 1)) [
        | inl short ↦ rw (differ, short) (emit_kind u _ _ 1 samples v (omega arith) emit_verbatim)
        | inr long ↦ rw (differ, long) (emit_kind u _ _ 9 samples v (omega arith) emit_fixed1)
      ]
    ]
