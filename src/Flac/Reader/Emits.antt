-- ===== src/Flac/Reader/Emits.antt =====
-- Encoder steps that a reader undoes. `Emits w w' r a`: the step from `w` to `w'` keeps the writer
-- valid and appends bits from which `r` reads `a`, whatever follows them.
use baxters_stereo_mix_lin.Base.{
  ℕ, zero, suc, ◌+◌, ◌*◌, ◌/◌, ◌%◌, ◌^◌, ◌-◌, ◌<◌, ◌≡◌, refl, ap, ◌∙◌, some, List, [], ◌∷◌, ◌++◌,
  append_assoc, arith, replicate, length, All, bit_and, ==_refl,
}
use baxters_stereo_mix_lin.Base.Bits.{bit_and_mask, mod_high}
use baxters_stereo_mix_lin.Base.Int.{ℤ, twos, from_twos, InWidth, from_twos-twos}
use baxters_stereo_mix_lin.Flac.BitWriter.{BitWriter, write_bits, write_unary}
use baxters_stereo_mix_lin.Flac.BitWriter.Stream.{bits, IsValid, Extends}
use baxters_stereo_mix_lin.Flac.BitWriter.Write.{
  Extends-refl, Extends-trans, write_bits-Extends, write_unary-Extends,
}
use baxters_stereo_mix_lin.Flac.Reader.{
  Reader, pure, ◌>>=◌, read_onto, read, read_signed, read_zeros, expect, many,
}
use native.Mathlib.Nat.{mod-eq_of_lt, mod-lt, one-le-pow, pow-suc}
use mathlib.Core.Path.{subst}
use mathlib.Core.List.{foldl}

pub record Emits {A : Type 0} (w w' : BitWriter) (r : Reader A) (a : A) : Type 0 where
  pub output : List ℕ
  pub extends : Extends w w' output
  pub reads : (rest : List ℕ) → r (output ++ rest) ≡ some (a, rest)

module _ {A : Type 0} where
  pub emit_pure : (w : BitWriter) (a : A) → IsValid w → Emits w w (pure a) a
  emit_pure w a v = record { output = []; extends = Extends-refl w v; reads = λ rest. refl }

  -- One step behind another is read by one reader behind another.
  pub emit_bind :
      {B : Type 0} {u w x : BitWriter} {r : Reader A} {a : A} (k : A → Reader B) {b : B}
      → Emits u w r a
      → Emits w x (k a) b
      → Emits u x (r >>= k) b
  emit_bind {r} k p q = record {
    output = p.output ++ q.output;
    extends = Extends-trans p.extends q.extends;
    reads = λ rest.
        rw (append_assoc p.output q.output rest, p.reads (q.output ++ rest), ◌>>=◌) (q.reads rest);
  }

  pub emit-IsValid : {w x : BitWriter} {r : Reader A} {a : A} → Emits w x r a → IsValid x
  emit-IsValid p = p.extends.valid

read_onto-bits :
    (n acc v : ℕ) (rest : List ℕ)
    → read_onto n acc (bits v n ++ rest) ≡ some (acc * 2 ^ n + v % 2 ^ n, rest)
unfolding read_onto
read_onto-bits zero acc v rest = ground arith
read_onto-bits (suc n) acc v rest = rw (read_onto-bits n (acc * 2 + v / 2 ^ n % 2) v rest) (
    ap (λ (t : ℕ). some (t, rest))
      (omega (arith, mod_high v n, ap (λ (t : ℕ). acc * t) (pow-suc 2 n))))

-- A field of `n` bits.
pub emit_bits :
    (w : BitWriter) (v n : ℕ) → IsValid w → Emits w (write_bits w v n) (read n) (v % 2 ^ n)
unfolding read
emit_bits w v n h = record {
  output = bits v n;
  extends = write_bits-Extends w v n h;
  reads = λ rest. rw (read_onto-bits n 0 v rest) (ground arith);
}

pub emit_field :
    (w : BitWriter) (v n : ℕ) → IsValid w → v < 2 ^ n → Emits w (write_bits w v n) (read n) v
emit_field w v n h fits = rw (mod-eq_of_lt fits) at (emit_bits w v n h)

-- A field of a fixed value.
pub emit_const :
    (w : BitWriter) (v n : ℕ) → IsValid w → v < 2 ^ n → Emits w (write_bits w v n) (expect n v) tt
unfolding expect
emit_const w v n h fits =
    emit_bind _ (emit_field w v n h fits)
      (rw (==_refl v) (emit_pure (write_bits w v n) tt (write_bits-Extends w v n h).valid))

-- A signed field of `w + 1` bits, cut from the 64-bit two's complement by a mask.
pub emit_signed :
    (u : BitWriter) (w : ℕ) (z : ℤ)
    → IsValid u
    → w < 64
    → InWidth w z
    → Emits u (write_bits u (bit_and (twos 64 z) (2 ^ suc w - 1)) (suc w)) (read_signed w) z
unfolding read_signed
emit_signed u w z v h fits = emit_bind _ field (rw back (emit_pure _ z (emit-IsValid field)))
  where
    cut : bit_and (twos 64 z) (2 ^ suc w - 1) ≡ twos 64 z % 2 ^ suc w
    cut = bit_and_mask (suc w) (twos 64 z)

    field :
        Emits u
          (write_bits u (bit_and (twos 64 z) (2 ^ suc w - 1)) (suc w))
          (read (suc w))
          (twos 64 z % 2 ^ suc w)
    field = rw cut (
        emit_field u (twos 64 z % 2 ^ suc w) (suc w) v
          (mod-lt (twos 64 z) (one-le-pow (suc w) 2 (omega arith))))

    back : from_twos w (twos 64 z % 2 ^ suc w) ≡ z
    back =
        let e : 63 - w + suc w ≡ 64 = omega arith in
        subst (λ n. from_twos w (twos n z % 2 ^ suc w) ≡ z) e (from_twos-twos (63 - w) w z fits)

read_zeros-replicate :
    (n acc : ℕ) (rest : List ℕ)
    → read_zeros acc ((replicate n 0 ++ (1 ∷ [])) ++ rest) ≡ some (acc + n, rest)
unfolding read_zeros
read_zeros-replicate zero acc rest = ground arith
read_zeros-replicate (suc n) acc rest = rw (read_zeros-replicate n (acc + 1) rest) (ground arith)

-- A unary count.
pub emit_unary : (w : BitWriter) (n : ℕ) → IsValid w → Emits w (write_unary w n) (read_zeros 0) n
emit_unary w n v = record {
  output = replicate n 0 ++ (1 ∷ []);
  extends = write_unary-Extends w n v;
  reads = λ rest. read_zeros-replicate n 0 rest ∙ ground arith;
}

-- A loop over a list, one item read back for each one written.
pub emit_many :
    {A : Type 0} (P : A → Type 0) (step : BitWriter → A → BitWriter) (r : Reader A)
    → ((w : BitWriter) (a : A) → IsValid w → P a → Emits w (step w a) r a)
    → (xs : List A) (w : BitWriter) → IsValid w
    → All P xs
    → Emits w (foldl step w xs) (many (length xs) r) xs
unfolding many
emit_many P step r one [] w v all = emit_pure w [] v
emit_many P step r one (x ∷ xs) w v all =
    let first = one w x v all.0 in
    let others = emit_many P step r one xs (step w x) (emit-IsValid first) all.1 in
    emit_bind _ first (emit_bind _ others (emit_pure _ (x ∷ xs) (emit-IsValid others)))
