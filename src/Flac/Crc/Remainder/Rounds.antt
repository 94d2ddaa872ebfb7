-- ===== src/Flac/Crc/Remainder/Rounds.antt =====
-- A round of the checksum's loop is one step of the long division, and it is linear.
use baxters_stereo_mix_lin.Base.{
  ℕ, zero, suc, ◌+◌, ◌*◌, ◌/◌, ◌%◌, ◌^◌, ◌≤◌, ◌<◌, ◌≡◌, refl, sym, ap, ◌∙◌, arith, List, ◌++◌,
  bit_xor, ltb, Bool-cases, inl, inr, replicate, if◌then◌else◌,
}
use baxters_stereo_mix_lin.Base.Bits.{bit_xor-zero, bit_xor-lt, mod_high, mod_shift}
use baxters_stereo_mix_lin.Base.Xor.{
  xor_disjoint, xor_double, xor_times, bit_xor_comm, bit_xor_assoc, bit_xor_swap, bit_xor_split,
}
use baxters_stereo_mix_lin.Flac.Crc.{rounds}
use baxters_stereo_mix_lin.Flac.Crc.Remainder.{remainder}
use baxters_stereo_mix_lin.Flac.BitWriter.Stream.{bits}
use native.Mathlib.Nat.{
  pow-suc, one-le-pow, mod-lt, div-add-mod', div-eq_of_lt, mod-eq_of_lt, div-eq_of_lt-le,
  pow-le-pow_right,
}

div_whole : (k a r : ℕ) → r < 2 ^ k → (a * 2 ^ k + r) / 2 ^ k ≡ a
div_whole k a r h = grind arith

-- A checksum of `k + 1` bits with the low part `p` of its polynomial.
module _ (k p : ℕ) (small : p < 2 ^ suc k) where
  abbrev pub round : ℕ → ℕ
  round x = bit_xor (2 * (x % 2 ^ k)) (x / 2 ^ k * p)

  positive : 1 ≤ 2 ^ k
  positive = one-le-pow k 2 (omega arith)

  top-lt : (x : ℕ) → x < 2 ^ suc k → x / 2 ^ k < 2
  top-lt x h = grind (arith, pow-suc 2 k)

  term-lt : (a : ℕ) → a < 2 → a * p < 2 ^ suc k
  term-lt zero h = omega (arith, positive, pow-suc 2 k)
  term-lt (suc zero) h = omega (arith, small)
  term-lt (suc (suc a)) h = absurd (omega arith)

  pub round-lt : (x : ℕ) → x < 2 ^ suc k → round x < 2 ^ suc k
  round-lt x h =
      bit_xor-lt (suc k) _ _ (omega (arith, mod-lt x positive, pow-suc 2 k))
        (term-lt (x / 2 ^ k) (top-lt x h))

  round-xor :
      (x y : ℕ) → x < 2 ^ suc k → y < 2 ^ suc k → round (bit_xor x y) ≡ bit_xor (round x) (round y)
  round-xor x y h l =
      ap round whole
      ∙ ap (λ t. bit_xor (2 * t) ((a' * 2 ^ k + r') / 2 ^ k * p)) (mod_shift a' (2 ^ k) r' low)
      ∙ ap (λ (t : ℕ). bit_xor (2 * r') (t * p)) (div_whole k a' r' low)
      ∙ ap (λ t. bit_xor t (a' * p)) (sym (xor_double (x % 2 ^ k) (y % 2 ^ k)))
      ∙ ap (bit_xor (bit_xor (2 * (x % 2 ^ k)) (2 * (y % 2 ^ k))))
          (xor_times (x / 2 ^ k) (y / 2 ^ k) p (top-lt x h) (top-lt y l))
      ∙ bit_xor_swap _ _ _ _
    where
      a' : ℕ
      a' = bit_xor (x / 2 ^ k) (y / 2 ^ k)

      r' : ℕ
      r' = bit_xor (x % 2 ^ k) (y % 2 ^ k)

      low : r' < 2 ^ k
      low = bit_xor-lt k _ _ (mod-lt x positive) (mod-lt y positive)

      whole : bit_xor x y ≡ a' * 2 ^ k + r'
      whole =
          ap (λ t. bit_xor t y) (sym (div-add-mod' x (2 ^ k)))
          ∙ ap (bit_xor (x / 2 ^ k * 2 ^ k + x % 2 ^ k)) (sym (div-add-mod' y (2 ^ k)))
          ∙ bit_xor_split k _ _ _ _ (mod-lt x positive) (mod-lt y positive)

  -- One bit of the message.
  abbrev pub polynomial : ℕ
  polynomial = 2 ^ suc k + p

  feed : ℕ → ℕ → ℕ
  feed r b = let next = 2 * r + b in if ltb next (2 ^ suc k) then next else bit_xor next polynomial

  add_bit : (s b : ℕ) → b < 2 → 2 * s + b ≡ bit_xor (2 * s) b
  add_bit s b l = sym (ap (λ t. bit_xor t b) (omega arith) ∙ xor_disjoint 1 s b l ∙ omega arith)

  feed-fits : (r b : ℕ) → b < 2 → 2 * r + b < 2 ^ suc k → 2 * r + b ≡ bit_xor (round r) b
  feed-fits r b l fits =
      let below : r < 2 ^ k = omega (arith, fits, pow-suc 2 k) in
      let top : r / 2 ^ k ≡ 0 = div-eq_of_lt below in
      let rest : r % 2 ^ k ≡ r = mod-eq_of_lt below in
      add_bit r b l
      ∙ ap (λ t. bit_xor t b)
          (sym (rw (top, rest) (ap (bit_xor (2 * r)) (omega arith) ∙ bit_xor-zero (2 * r))))

  feed-over :
      (r b : ℕ)
      → r < 2 ^ suc k
      → b < 2
      → 2 ^ suc k ≤ 2 * r + b
      → bit_xor (2 * r + b) polynomial ≡ bit_xor (round r) b
  feed-over r b h l over =
      ap (λ t. bit_xor t (2 ^ suc k + p)) carry
      ∙ ap (bit_xor (1 * 2 ^ suc k + (2 * s + b))) (omega arith)
      ∙ bit_xor_split (suc k) 1 1 (2 * s + b) p (omega (arith, low, pow-suc 2 k)) small
      ∙ omega arith
      ∙ ap (λ t. bit_xor t p) (add_bit s b l)
      ∙ bit_xor_assoc (2 * s) b p
      ∙ ap (bit_xor (2 * s)) (bit_xor_comm b p)
      ∙ sym (bit_xor_assoc (2 * s) p b)
      ∙ ap (λ t. bit_xor (bit_xor (2 * s) t) b) (omega (arith, ap (λ (t : ℕ). t * p) top))
    where
      s : ℕ
      s = r % 2 ^ k

      low : s < 2 ^ k
      low = mod-lt r positive

      half : 2 ^ k ≤ r
      half = omega (arith, over, pow-suc 2 k)

      top : r / 2 ^ k ≡ 1
      top = div-eq_of_lt-le (2 ^ k) (omega (arith, half)) (omega (arith, h, pow-suc 2 k))

      whole : r ≡ 2 ^ k + s
      whole = omega (arith, div-add-mod' r (2 ^ k), ap (λ (t : ℕ). t * 2 ^ k) top)

      carry : 2 * r + b ≡ 1 * 2 ^ suc k + (2 * s + b)
      carry = omega (arith, whole, pow-suc 2 k)

  feed-round : (r b : ℕ) → r < 2 ^ suc k → b < 2 → feed r b ≡ bit_xor (round r) b
  unfolding feed
  feed-round r b h l = elim (Bool-cases (ltb (2 * r + b) (2 ^ suc k))) [
    | inl fits ↦ rw (feed, fits) (feed-fits r b l (ground arith))
    | inr over ↦ rw (feed, over) (feed-over r b h l (ground arith))
  ]

  feed-lt : (r b : ℕ) → r < 2 ^ suc k → b < 2 → feed r b < 2 ^ suc k
  feed-lt r b h l =
      rw (feed-round r b h l)
        (bit_xor-lt (suc k) _ _ (round-lt r h) (omega (arith, positive, l, pow-suc 2 k)))

  pub rounds-lt : (n x : ℕ) → x < 2 ^ suc k → rounds round n x < 2 ^ suc k
  unfolding rounds
  rounds-lt zero x h = h
  rounds-lt (suc n) x h = rounds-lt n (round x) (round-lt x h)

  pub rounds-xor :
      (n x y : ℕ)
      → x < 2 ^ suc k
      → y < 2 ^ suc k
      → rounds round n (bit_xor x y) ≡ bit_xor (rounds round n x) (rounds round n y)
  unfolding rounds
  rounds-xor zero x y h l = refl
  rounds-xor (suc n) x y h l =
      ap (rounds round n) (round-xor x y h l)
      ∙ rounds-xor n (round x) (round y) (round-lt x h) (round-lt y l)

  pub rounds-add : (m n x : ℕ) → rounds round n (rounds round m x) ≡ rounds round (m + n) x
  unfolding rounds
  rounds-add zero n x = let e : n ≡ zero + n = omega arith in ap (λ t. rounds round t x) e
  rounds-add (suc m) n x =
      let e : suc (m + n) ≡ suc m + n = omega arith in
      rounds-add m n (round x) ∙ ap (λ t. rounds round t x) e

  round-double : (v : ℕ) → v < 2 ^ k → round v ≡ 2 * v
  round-double v h =
      rw (div-eq_of_lt h, mod-eq_of_lt h)
        (ap (bit_xor (2 * v)) (omega arith) ∙ bit_xor-zero (2 * v))

  -- As long as no bit falls out, a round doubles.
  pub rounds-shift : (i v : ℕ) → v * 2 ^ i < 2 ^ suc k → rounds round i v ≡ v * 2 ^ i
  unfolding rounds
  rounds-shift zero v h = omega arith
  rounds-shift (suc i) v h =
      let twice : v * 2 ^ suc i ≡ 2 * v * 2 ^ i = grind (arith, pow-suc 2 i) in
      let low : v < 2 ^ k = grind (arith, pow-suc 2 k, one-le-pow i 2) in
      ap (rounds round i) (round-double v low)
      ∙ rounds-shift i (2 * v) (omega (arith, h, twice))
      ∙ sym twice

  bit-lt : (i b : ℕ) → i ≤ k → b < 2 → b * 2 ^ i < 2 ^ suc k
  bit-lt i b h l =
      grind (arith, pow-suc 2 k, one-le-pow i 2, pow-le-pow_right {n = 2} (omega arith) h)

  -- Long division over the low `i` bits of `v`.
  pub remainder-bits :
      (i v r : ℕ) (rest : List ℕ)
      → i ≤ suc k
      → r < 2 ^ suc k
      → remainder (suc k) polynomial r (bits v i ++ rest)
        ≡ remainder (suc k) polynomial (bit_xor (rounds round i r) (v % 2 ^ i)) rest
  unfolding remainder rounds feed
  remainder-bits zero v r rest h l =
      let none_left : v % 2 ^ 0 ≡ 0 = omega arith in
      ap (λ t. remainder (suc k) polynomial t rest)
        (sym (ap (bit_xor r) none_left ∙ bit_xor-zero r))
  remainder-bits (suc i) v r rest h l =
      remainder-bits i v (feed r b) rest (omega arith) (feed-lt r b l bit)
      ∙ ap (λ t. remainder (suc k) polynomial t rest)
          (ap (λ t. bit_xor (rounds round i t) (v % 2 ^ i)) (feed-round r b l bit)
            ∙ ap (λ t. bit_xor t (v % 2 ^ i)) (rounds-xor i (round r) b (round-lt r l) small_bit)
            ∙ ap (λ t. bit_xor (bit_xor (rounds round i (round r)) t) (v % 2 ^ i))
                (rounds-shift i b (bit-lt i b (omega arith) bit))
            ∙ bit_xor_assoc _ _ _
            ∙ ap (bit_xor (rounds round i (round r))) (
                xor_disjoint i b (v % 2 ^ i) (mod-lt v (one-le-pow i 2 (omega arith)))
                ∙ sym (mod_high v i)))
    where
      b : ℕ
      b = v / 2 ^ i % 2

      bit : b < 2
      bit = omega arith

      small_bit : b < 2 ^ suc k
      small_bit = omega (arith, bit, positive, pow-suc 2 k)

  -- Zeros behind the message are rounds.
  pub remainder-zeros :
      (n r : ℕ) → r < 2 ^ suc k → remainder (suc k) polynomial r (replicate n 0) ≡ rounds round n r
  unfolding remainder rounds feed
  remainder-zeros zero r h = refl
  remainder-zeros (suc n) r h =
      remainder-zeros n (feed r 0) (feed-lt r 0 h (omega arith))
      ∙ ap (rounds round n) (feed-round r 0 h (omega arith) ∙ bit_xor-zero (round r))
