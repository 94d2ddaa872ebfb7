-- ===== src/Base/Bits.antt =====
-- Masks, shifts and disjoint `|` on machine words as arithmetic, at every width. The native bit
-- operations compute at numerals only; here their meaning at variables is read off their digits.
use Prim.Native.Nat.{ℕ, zero, suc, ◌+◌, ◌-◌, ◌*◌, ◌/◌, ◌%◌, ◌^◌, ◌≤◌, ◌<◌, min, max}
use Prim.Native.Nat.{bit_and, bit_or, bit_xor, digits, differ}
use Prim.Native.Nat.{bit_and-bitwise, bit_or-bitwise, bit_xor-bitwise}
use mathlib.Core.Path.{◌≡◌, refl, sym, ap, ◌∙◌}
use native.Mathlib.Nat.{
  mod-lt, div-add-mod', pow-suc, one-le-pow, zero-add, suc-add, pow-succ', div-div-eq-div-mul,
}
use native.Mathlib.Omega.{arith}

infixl 75 ◌<<<◌ ◌>>>◌
abbrev pub ◌<<<◌ : ℕ → ℕ → ℕ
x <<< k = x * 2 ^ k

abbrev pub ◌>>>◌ : ℕ → ℕ → ℕ
x >>> k = x / 2 ^ k

-- The casts `as u8`, `as u16`, `as u32` and `as u64`.
abbrev pub u8 : ℕ → ℕ
u8 n = n % 2 ^ 8

abbrev pub u16 : ℕ → ℕ
u16 n = n % 2 ^ 16

abbrev pub u32 : ℕ → ℕ
u32 n = n % 2 ^ 32

abbrev pub u64 : ℕ → ℕ
u64 n = n % 2 ^ 64

differ_zero : (y : ℕ) → differ 0 y ≡ y
differ_zero y = refl

differ-zero : (x : ℕ) → differ x 0 ≡ x
differ-zero zero = refl
differ-zero (suc x) = refl

differ_self : (x : ℕ) → differ x x ≡ 0
differ_self zero = refl
differ_self (suc x) = differ_self x

pub pow-add : (a b : ℕ) → 2 ^ (a + b) ≡ 2 ^ a * 2 ^ b
pow-add zero b = rw zero-add (omega arith)
pow-add (suc a) b =
    rw suc-add
      (omega (arith, pow-suc 2 (a + b), ap (λ (t : ℕ). t * 2 ^ b) (pow-suc 2 a), pow-add a b))

pub div_low : (a n : ℕ) → a / 2 ^ suc n ≡ a / 2 / 2 ^ n
div_low a n = rw (pow-succ' 2 n) (sym (div-div-eq-div-mul a 2 (2 ^ n)))

-- Whole multiples of the modulus do not count.
pub mod_shift : (q m r : ℕ) → r < m → (q * m + r) % m ≡ r
mod_shift q m r h = grind arith

-- The bit above the lowest `n`.
pub mod_high : (v n : ℕ) → v % 2 ^ suc n ≡ v / 2 ^ n % 2 * 2 ^ n + v % 2 ^ n
mod_high v n = ap (λ (t : ℕ). t % 2 ^ suc n) split ∙ mod_shift q (2 ^ suc n) (d * 2 ^ n + r) fits
  where
    q : ℕ
    q = v / 2 ^ n / 2

    d : ℕ
    d = v / 2 ^ n % 2

    r : ℕ
    r = v % 2 ^ n

    fits : d * 2 ^ n + r < 2 ^ suc n
    fits = grind (arith, pow-suc 2 n, mod-lt v (one-le-pow n 2 (omega arith)))

    split : v ≡ q * 2 ^ suc n + (d * 2 ^ n + r)
    split =
        let halves : v / 2 ^ n ≡ q * 2 + d = omega arith in
        omega (
          arith,
          div-add-mod' v (2 ^ n),
          ap (λ (t : ℕ). t * 2 ^ n) halves,
          ap (λ (t : ℕ). q * t) (pow-suc 2 n),
        )

module _ (z : ℕ → ℕ) (f : ℕ → ℕ → ℕ) where
  -- Any two fuels that reach the number give the same digits.
  digits_enough :
      (fuel more a b : ℕ) → a ≤ fuel → a ≤ more → digits z f fuel a b ≡ digits z f more a b
  digits_enough zero zero a b p q = refl
  digits_enough zero (suc more) zero b p q = refl
  digits_enough zero (suc more) (suc a) b p q = absurd (omega arith)
  digits_enough (suc fuel) zero zero b p q = refl
  digits_enough (suc fuel) zero (suc a) b p q = absurd (omega arith)
  digits_enough (suc fuel) (suc more) zero b p q = refl
  digits_enough (suc fuel) (suc more) (suc a) b p q =
      omega (arith, digits_enough fuel more (suc a / 2) (b / 2) (omega arith) (omega arith))

or_low : (a b : ℕ) → bit_or a b ≡ bit_or (a / 2) (b / 2) * 2 + max (a % 2) (b % 2)
or_low zero b = omega (arith, bit_or-bitwise 0 b, bit_or-bitwise 0 (b / 2))
or_low (suc a) b = omega (
  arith,
  bit_or-bitwise (suc a) b,
  bit_or-bitwise (suc a / 2) (b / 2),
  digits_enough (λ y. y) max a (suc a / 2) (suc a / 2) (b / 2) (omega arith) (omega arith),
)

and_low : (a b : ℕ) → bit_and a b ≡ bit_and (a / 2) (b / 2) * 2 + min (a % 2) (b % 2)
and_low zero b = omega (arith, bit_and-bitwise 0 b, bit_and-bitwise 0 (b / 2))
and_low (suc a) b = omega (
  arith,
  bit_and-bitwise (suc a) b,
  bit_and-bitwise (suc a / 2) (b / 2),
  digits_enough (λ y. 0) min a (suc a / 2) (suc a / 2) (b / 2) (omega arith) (omega arith),
)

or_zero_fuel : (n a : ℕ) → a ≤ n → bit_or a 0 ≡ a
or_zero_fuel n zero h = refl
or_zero_fuel zero (suc a) h = absurd (omega arith)
or_zero_fuel (suc n) (suc a) h =
    omega (arith, or_low (suc a) 0, or_zero_fuel n (suc a / 2) (omega arith))

pub bit_or-zero : (a : ℕ) → bit_or a 0 ≡ a
bit_or-zero a = or_zero_fuel a a (omega arith)

and_zero_fuel : (n a : ℕ) → a ≤ n → bit_and a 0 ≡ 0
and_zero_fuel n zero h = refl
and_zero_fuel zero (suc a) h = absurd (omega arith)
and_zero_fuel (suc n) (suc a) h =
    omega (arith, and_low (suc a) 0, and_zero_fuel n (suc a / 2) (omega arith))

pub bit_and-zero : (a : ℕ) → bit_and a 0 ≡ 0
bit_and-zero a = and_zero_fuel a a (omega arith)

pub times_pow : (q k : ℕ) → q * 2 ^ suc k ≡ 2 * (q * 2 ^ k)
times_pow q k = omega (arith, ap (λ (t : ℕ). q * t) (pow-suc 2 k))

-- `|` adds a value that fits below the other one's low zeros.
pub bit_or_disjoint : (k q r : ℕ) → r < 2 ^ k → bit_or (q * 2 ^ k) r ≡ q * 2 ^ k + r
bit_or_disjoint zero q r h = ground (arith, bit_or-zero q)
bit_or_disjoint (suc k) q r h = ground (
  arith,
  or_low (q * 2 ^ suc k) r,
  times_pow q k,
  pow-suc 2 k,
  bit_or_disjoint k q (r / 2) (ground (arith, pow-suc 2 k)),
)

and_ones : (k q r : ℕ) → r < 2 ^ k → bit_and (q * 2 ^ k + r) (2 ^ k - 1) ≡ r
and_ones zero q r h = ground (arith, bit_and-zero (q * 1 + r))
and_ones (suc k) q r h = ground (
  arith,
  and_low (q * 2 ^ suc k + r) (2 ^ suc k - 1),
  times_pow q k,
  pow-suc 2 k,
  one-le-pow k 2,
  and_ones k q (r / 2) (ground (arith, pow-suc 2 k)),
)

-- `&` with a single bit.
pub bit_and_one : (k q r : ℕ) → r < 2 ^ k → bit_and (q * 2 ^ k + r) (2 ^ k) ≡ q % 2 * 2 ^ k
bit_and_one zero q r h = ground (arith, and_low (q * 1 + r) 1, bit_and-zero ((q * 1 + r) / 2))
bit_and_one (suc k) q r h = ground (
  arith,
  and_low (q * 2 ^ suc k + r) (2 ^ suc k),
  times_pow q k,
  times_pow (q % 2) k,
  pow-suc 2 k,
  one-le-pow k 2,
  bit_and_one k q (r / 2) (ground (arith, pow-suc 2 k)),
)

-- `&` with a mask of `k` ones is the remainder by `2 ^ k`.
pub bit_and_mask : (k a : ℕ) → bit_and a (2 ^ k - 1) ≡ a % 2 ^ k
bit_and_mask k a = ground (arith, one-le-pow k 2, and_ones k (a / 2 ^ k) (a % 2 ^ k))

pub xor_low : (a b : ℕ) → bit_xor a b ≡ bit_xor (a / 2) (b / 2) * 2 + differ (a % 2) (b % 2)
xor_low zero b = omega (arith, bit_xor-bitwise 0 b, bit_xor-bitwise 0 (b / 2), differ_zero (b % 2))
xor_low (suc a) b = omega (
  arith,
  bit_xor-bitwise (suc a) b,
  bit_xor-bitwise (suc a / 2) (b / 2),
  digits_enough (λ y. y) differ a (suc a / 2) (suc a / 2) (b / 2) (omega arith) (omega arith),
)

xor_self_fuel : (n a : ℕ) → a ≤ n → bit_xor a a ≡ 0
xor_self_fuel n zero h = refl
xor_self_fuel zero (suc a) h = absurd (omega arith)
xor_self_fuel (suc n) (suc a) h = omega (
  arith,
  xor_low (suc a) (suc a),
  differ_self (suc a % 2),
  xor_self_fuel n (suc a / 2) (omega arith),
)

pub bit_xor_self : (a : ℕ) → bit_xor a a ≡ 0
bit_xor_self a = xor_self_fuel a a (omega arith)

xor_zero_fuel : (n a : ℕ) → a ≤ n → bit_xor a 0 ≡ a
xor_zero_fuel n zero h = refl
xor_zero_fuel zero (suc a) h = absurd (omega arith)
xor_zero_fuel (suc n) (suc a) h =
    omega
      (arith, xor_low (suc a) 0, differ-zero (suc a % 2), xor_zero_fuel n (suc a / 2) (omega arith))

pub bit_xor-zero : (a : ℕ) → bit_xor a 0 ≡ a
bit_xor-zero a = xor_zero_fuel a a (omega arith)

-- `^` with a number whose low bits are zero leaves the low bits alone.
pub bit_xor_high :
    (k a b r : ℕ) → r < 2 ^ k → bit_xor (a * 2 ^ k + r) (b * 2 ^ k) ≡ bit_xor a b * 2 ^ k + r
bit_xor_high zero a b r h = ground arith
bit_xor_high (suc k) a b r h = ground (
  arith,
  xor_low (a * 2 ^ suc k + r) (b * 2 ^ suc k),
  times_pow a k,
  times_pow b k,
  times_pow (bit_xor a b) k,
  differ-zero (r % 2),
  bit_xor_high k a b (r / 2) (ground (arith, pow-suc 2 k)),
)

pub differ-lt : (x y : ℕ) → x < 2 → y < 2 → differ x y < 2
differ-lt zero y h k = k
differ-lt (suc x) zero h k = h
differ-lt (suc x) (suc y) h k = differ-lt x y (omega arith) (omega arith)

-- `^` stays within a width.
pub bit_xor-lt : (k a b : ℕ) → a < 2 ^ k → b < 2 ^ k → bit_xor a b < 2 ^ k
bit_xor-lt zero a b h l =
    let ea : a ≡ 0 = omega arith in let eb : b ≡ 0 = omega arith in rw (ea, eb) (omega arith)
bit_xor-lt (suc k) a b h l = ground (
  arith,
  xor_low a b,
  pow-suc 2 k,
  differ-lt (a % 2) (b % 2),
  bit_xor-lt k (a / 2) (b / 2) (ground (arith, pow-suc 2 k)) (ground (arith, pow-suc 2 k)),
)
