-- ===== src/Base/Table.antt =====
-- Equations over a small range, checked value by value.
use Prim.Native.Nat.{ℕ, zero, suc, ◌<◌}
use mathlib.Core.Path.{◌≡◌, refl}
use mathlib.Core.Bool.{Bool, true, false, ◌&&◌}
use mathlib.Core.Logic.{inl, inr}
use native.Mathlib.Omega.{arith}
use baxters_stereo_mix_lin.Base.Tests.{◌==◌, ==_iff, Bool-cases}

-- Whether `f` and `g` agree below `n`.
unfoldable pub agree : (f g : ℕ → ℕ) → ℕ → Bool
agree f g zero = true
agree f g (suc n) = (f n == g n) && agree f g n

both : (a b : Bool) → (a && b) ≡ true → (a ≡ true) × (b ≡ true)
both true b h = (refl, h)
both false b h = cc

pub agree→eq : (f g : ℕ → ℕ) (n : ℕ) → agree f g n ≡ true → (x : ℕ) → x < n → f x ≡ g x
unfolding agree
agree→eq f g zero h x l = absurd (omega arith)
agree→eq f g (suc n) h x l = elim (Bool-cases (x == n)) [
  | inl same ↦ let e : x ≡ n = (==_iff x n).0 same in rw e ((==_iff (f n) (g n)).0 (both _ _ h).0)
  | inr other ↦ agree→eq f g n (both _ _ h).1 x (ground arith)
]
