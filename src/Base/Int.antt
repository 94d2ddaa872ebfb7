-- ===== src/Base/Int.antt =====
-- Signed machine integers: their two parts, sums, differences and two's complement.
use Prim.Native.Nat.{ℕ, suc, ◌+◌, ◌-◌, ◌*◌, ◌%◌, ◌^◌, ◌<◌}
use mathlib.Core.Path.{◌≡◌, ap}
use mathlib.Core.Bool.{Bool, true, false}
use native.Mathlib.Omega.{arith}
use native.Mathlib.Nat.{pow-suc, one-le-pow, mod-eq_of_lt}
use baxters_stereo_mix_lin.Base.Bits.{pow-add, mod_shift}
use baxters_stereo_mix_lin.Base.Tests.{ltb, leb, ◌==◌, if◌then◌else◌}

-- `negsuc n` is -(n + 1).
pub data ℤ : Type 0 where
  pos : ℕ → ℤ
  negsuc : ℕ → ℤ

abbrev pub pos_part : ℤ → ℕ
pos_part (pos n) = n
pos_part (negsuc n) = 0

abbrev pub neg_part : ℤ → ℕ
neg_part (pos n) = 0
neg_part (negsuc n) = suc n

-- a - b, as an integer.
abbrev pub sub_ℕ : ℕ → ℕ → ℤ
sub_ℕ a b = if leb b a then pos (a - b) else negsuc (b - a - 1)

infixl 65 ◌+ℤ◌ ◌-ℤ◌
unfoldable pub ◌+ℤ◌ : ℤ → ℤ → ℤ
a +ℤ b = sub_ℕ (pos_part a + pos_part b) (neg_part a + neg_part b)

unfoldable pub ◌-ℤ◌ : ℤ → ℤ → ℤ
a -ℤ b = sub_ℕ (pos_part a + neg_part b) (neg_part a + pos_part b)

abbrev pub is_nonneg : ℤ → Bool
is_nonneg a = leb (neg_part a) 0

abbrev pub ℤ_eq : ℤ → ℤ → Bool
ℤ_eq (pos a) (pos b) = a == b
ℤ_eq (pos a) (negsuc b) = false
ℤ_eq (negsuc a) (pos b) = false
ℤ_eq (negsuc a) (negsuc b) = a == b

pub ℤ_eq→eq : (a b : ℤ) → ℤ_eq a b ≡ true → a ≡ b
ℤ_eq→eq (pos a) (pos b) h = ground arith
ℤ_eq→eq (pos a) (negsuc b) h = cc
ℤ_eq→eq (negsuc a) (pos b) h = cc
ℤ_eq→eq (negsuc a) (negsuc b) h = ground arith

pub +ℤ-sub : (a b : ℤ) → a +ℤ (b -ℤ a) ≡ b
unfolding ◌+ℤ◌ ◌-ℤ◌
+ℤ-sub a b = ground arith

-- The integers of `w + 1` bits: `InWidth 15` are those of `i16`.
abbrev pub InWidth : ℕ → ℤ → Type 0
InWidth w (pos n) = n < 2 ^ w
InWidth w (negsuc n) = n < 2 ^ w

-- A signed value cast to an unsigned one of `w` bits (`as u64` is width 64).
abbrev pub twos : ℕ → ℤ → ℕ
twos w (pos n) = n % 2 ^ w
twos w (negsuc n) = 2 ^ w - 1 - n % 2 ^ w

-- The signed value of `w + 1` bits that a pattern stands for.
abbrev pub from_twos : ℕ → ℕ → ℤ
from_twos w n = if ltb n (2 ^ w) then pos n else negsuc (2 ^ suc w - 1 - n)

module _ (q p n : ℕ) (pos_q : 0 < q) (fits : n < p) where
  below_product : n < q * p
  below_product = grind arith

  fold_pos : n % (q * p) % p ≡ n
  fold_pos = rw (mod-eq_of_lt below_product, mod-eq_of_lt fits)

  fold_neg : (q * p - 1 - n % (q * p)) % p ≡ p - 1 - n
  fold_neg = rw (mod-eq_of_lt below_product, split) (mod_shift (q - 1) p (p - 1 - n) (omega arith))
    where
      split : q * p - 1 - n ≡ (q - 1) * p + (p - 1 - n)
      split = let e : q ≡ suc (q - 1) = omega arith in omega (arith, ap (λ (t : ℕ). t * p) e)

-- Cut to `w + 1` bits and read back as a signed number, a value that fits is itself.
pub from_twos-twos :
    (e w : ℕ) (z : ℤ) → InWidth w z → from_twos w (twos (e + suc w) z % 2 ^ suc w) ≡ z
from_twos-twos e w (pos n) h =
    rw (pow-add e (suc w), fold_pos (2 ^ e) (2 ^ suc w) n (one-le-pow e 2 (omega arith)) wide)
      (ground arith)
  where
    wide : n < 2 ^ suc w
    wide = omega (arith, pow-suc 2 w)
from_twos-twos e w (negsuc n) h =
    rw (pow-add e (suc w), fold_neg (2 ^ e) (2 ^ suc w) n (one-le-pow e 2 (omega arith)) wide)
      (ground (arith, pow-suc 2 w))
  where
    wide : n < 2 ^ suc w
    wide = omega (arith, pow-suc 2 w)
