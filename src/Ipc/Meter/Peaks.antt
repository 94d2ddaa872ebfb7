-- ===== src/Ipc/Meter/Peaks.antt =====
-- What the meter shows of a frame.
use baxters_stereo_mix_lin.Base.{
  ℕ, ◌+◌, ◌%◌, ◌≡◌, refl, ◌∙◌, List, [], ◌∷◌, max, arith, ◌==◌, if◌then◌else◌,
}
use baxters_stereo_mix_lin.Base.Int.{ℤ}
use baxters_stereo_mix_lin.Ipc.Meter.{magnitude, peaks}

-- The largest magnitude of the samples of channel `c`, from index `i` on.
unfoldable pub loudest : ℕ → ℕ → ℕ → List ℤ → ℕ
loudest ch c i [] = 0
loudest ch c i (s ∷ rest) =
    let later = loudest ch c (i + 1) rest in if i % ch == c then max (magnitude s) later else later

both : {a b c d : ℕ} → a ≡ c → b ≡ d → ◌≡◌ {A = ℕ × ℕ} (a, b) (c, d)
both p q = rw (p, q) refl

peaks-loudest_from :
    (ch i : ℕ) (samples : List ℤ) (l r : ℕ)
    → peaks ch i samples (l, r) ≡ (max l (loudest ch 0 i samples), max r (loudest ch 1 i samples))
unfolding peaks loudest
peaks-loudest_from ch i [] l r = both (omega arith) (omega arith)
peaks-loudest_from ch i (s ∷ rest) l r = ground (
  arith,
  peaks-loudest_from ch (i + 1) rest (max l (magnitude s)) r,
  peaks-loudest_from ch (i + 1) rest l (max r (magnitude s)),
  peaks-loudest_from ch (i + 1) rest l r,
)

-- The peaks are the largest magnitudes of the left and of the right channel.
pub peaks-loudest :
    (ch : ℕ) (samples : List ℤ)
    → peaks ch 0 samples (0, 0) ≡ (loudest ch 0 0 samples, loudest ch 1 0 samples)
peaks-loudest ch samples = peaks-loudest_from ch 0 samples 0 0 ∙ both (omega arith) (omega arith)
