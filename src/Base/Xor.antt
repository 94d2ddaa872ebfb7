-- ===== src/Base/Xor.antt =====
-- The laws of `^` on numbers of any size.
use Prim.Native.Nat.{ℕ, zero, suc, ◌+◌, ◌*◌, ◌/◌, ◌%◌, ◌^◌, ◌≤◌, ◌<◌}
use Prim.Native.Nat.{bit_xor, differ}
use mathlib.Core.Path.{◌≡◌, refl, sym, ap, ◌∙◌}
use native.Mathlib.Nat.{pow-suc, one-le-pow}
use native.Mathlib.Omega.{arith}
use baxters_stereo_mix_lin.Base.Bits.{xor_low, differ-lt, times_pow, bit_xor_self, bit_xor-zero}

differ_comm : (x y : ℕ) → differ x y ≡ differ y x
differ_comm zero zero = refl
differ_comm zero (suc y) = refl
differ_comm (suc x) zero = refl
differ_comm (suc x) (suc y) = differ_comm x y

differ_assoc : (x y z : ℕ) → x < 2 → y < 2 → z < 2 → differ (differ x y) z ≡ differ x (differ y z)
differ_assoc zero y z h k l = refl
differ_assoc (suc zero) zero z h k l = refl
differ_assoc (suc zero) (suc zero) zero h k l = refl
differ_assoc (suc zero) (suc zero) (suc zero) h k l = refl
differ_assoc (suc zero) (suc zero) (suc (suc z)) h k l = absurd (omega arith)
differ_assoc (suc zero) (suc (suc y)) z h k l = absurd (omega arith)
differ_assoc (suc (suc x)) y z h k l = absurd (omega arith)

xor_half : (a b : ℕ) → bit_xor a b / 2 ≡ bit_xor (a / 2) (b / 2)
xor_half a b = omega (arith, xor_low a b, differ-lt (a % 2) (b % 2) (omega arith) (omega arith))

xor_mod : (a b : ℕ) → bit_xor a b % 2 ≡ differ (a % 2) (b % 2)
xor_mod a b = omega (arith, xor_low a b, differ-lt (a % 2) (b % 2) (omega arith) (omega arith))

comm_fuel : (n a b : ℕ) → a ≤ n → b ≤ n → bit_xor a b ≡ bit_xor b a
comm_fuel zero a b h k =
    let ea : a ≡ 0 = omega arith in let eb : b ≡ 0 = omega arith in rw (ea, eb) refl
comm_fuel (suc n) a b h k = omega (
  arith,
  xor_low a b,
  xor_low b a,
  differ_comm (a % 2) (b % 2),
  comm_fuel n (a / 2) (b / 2) (omega arith) (omega arith),
)

pub bit_xor_comm : (a b : ℕ) → bit_xor a b ≡ bit_xor b a
bit_xor_comm a b = comm_fuel (a + b) a b (omega arith) (omega arith)

assoc_fuel :
    (n a b c : ℕ) → a ≤ n → b ≤ n → c ≤ n → bit_xor (bit_xor a b) c ≡ bit_xor a (bit_xor b c)
assoc_fuel zero a b c h k l =
    let ea : a ≡ 0 = omega arith in
    let eb : b ≡ 0 = omega arith in let ec : c ≡ 0 = omega arith in rw (ea, eb, ec) refl
assoc_fuel (suc n) a b c h k l =
    let left = xor_low (bit_xor a b) c in
    let right = xor_low a (bit_xor b c) in
    let later = assoc_fuel n (a / 2) (b / 2) (c / 2) (omega arith) (omega arith) (omega arith) in
    let bit = differ_assoc (a % 2) (b % 2) (c % 2) (omega arith) (omega arith) (omega arith) in
    omega (
      arith,
      rw (xor_half a b, xor_mod a b) at left,
      rw (xor_half b c, xor_mod b c) at right,
      later,
      bit,
    )

pub bit_xor_assoc : (a b c : ℕ) → bit_xor (bit_xor a b) c ≡ bit_xor a (bit_xor b c)
bit_xor_assoc a b c = assoc_fuel (a + b + c) a b c (omega arith) (omega arith) (omega arith)

-- The inner two of four change places.
pub bit_xor_swap :
    (a b c d : ℕ) → bit_xor (bit_xor a b) (bit_xor c d) ≡ bit_xor (bit_xor a c) (bit_xor b d)
bit_xor_swap a b c d =
    bit_xor_assoc a b (bit_xor c d)
    ∙ ap (bit_xor a)
        (sym (bit_xor_assoc b c d) ∙ ap (λ t. bit_xor t d) (bit_xor_comm b c) ∙ bit_xor_assoc c b d)
    ∙ sym (bit_xor_assoc a c (bit_xor b d))

-- `^` of the high parts and of the low parts.
pub bit_xor_split :
    (k a b r s : ℕ)
    → r < 2 ^ k
    → s < 2 ^ k
    → bit_xor (a * 2 ^ k + r) (b * 2 ^ k + s) ≡ bit_xor a b * 2 ^ k + bit_xor r s
bit_xor_split zero a b r s h l =
    let er : r ≡ 0 = omega arith in let es : s ≡ 0 = omega arith in rw (er, es) (ground arith)
bit_xor_split (suc k) a b r s h l = ground (
  arith,
  xor_low (a * 2 ^ suc k + r) (b * 2 ^ suc k + s),
  times_pow a k,
  times_pow b k,
  times_pow (bit_xor a b) k,
  xor_low r s,
  bit_xor_split k a b (r / 2) (s / 2) (ground (arith, pow-suc 2 k)) (ground (arith, pow-suc 2 k)),
)

pub zero_xor : (a : ℕ) → bit_xor 0 a ≡ a
zero_xor a = bit_xor_comm 0 a ∙ bit_xor-zero a

pub xor_disjoint : (i a w : ℕ) → w < 2 ^ i → bit_xor (a * 2 ^ i) w ≡ a * 2 ^ i + w
xor_disjoint i a w h =
    ap (λ t. bit_xor t w) (omega arith)
    ∙ ap (bit_xor (a * 2 ^ i + 0)) (omega arith)
    ∙ bit_xor_split i a 0 0 w (one-le-pow i 2 (omega arith)) h
    ∙ omega (arith, ap (λ (t : ℕ). t * 2 ^ i) (bit_xor-zero a), zero_xor w)

pub xor_double : (r s : ℕ) → bit_xor (2 * r) (2 * s) ≡ 2 * bit_xor r s
xor_double r s =
    ap (λ t. bit_xor t (2 * s)) (omega arith)
    ∙ ap (bit_xor (r * 2 ^ 1 + 0)) (omega arith)
    ∙ bit_xor_split 1 r s 0 0 (omega arith) (omega arith)
    ∙ omega (arith, bit_xor-zero 0)

pub xor_times : (a b p : ℕ) → a < 2 → b < 2 → bit_xor a b * p ≡ bit_xor (a * p) (b * p)
xor_times zero b p h k =
    ap (λ (t : ℕ). t * p) (zero_xor b)
    ∙ sym (ap (λ t. bit_xor t (b * p)) (omega arith) ∙ zero_xor (b * p))
xor_times (suc zero) zero p h k = sym (ap (bit_xor (1 * p)) (omega arith) ∙ bit_xor-zero (1 * p))
xor_times (suc zero) (suc zero) p h k = omega (arith, bit_xor_self (1 * p))
xor_times (suc zero) (suc (suc b)) p h k = absurd (omega arith)
xor_times (suc (suc a)) b p h k = absurd (omega arith)
