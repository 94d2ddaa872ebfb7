-- ===== src/Flac/Crc/Remainder/Bytes.antt =====
-- `crc8` and `crc16` of crates/bsm-encode/src/flac_enc.rs are the checksums of the format.
use baxters_stereo_mix_lin.Base.{
  ℕ, zero, suc, ◌+◌, ◌*◌, ◌/◌, ◌%◌, ◌^◌, ◌<◌, ◌≡◌, refl, sym, ap, ◌∙◌, arith, List, [], ◌∷◌, ◌++◌,
  append_assoc, All, bit_and, bit_xor, replicate, Bool-cases, inl, inr, ◌==◌,
}
use baxters_stereo_mix_lin.Base.Bits.{bit_and_one, bit_xor-zero, bit_xor-lt}
use baxters_stereo_mix_lin.Base.Table.{agree, agree→eq}
use baxters_stereo_mix_lin.Flac.BitWriter.Stream.{bits, bytes_bits}
use baxters_stereo_mix_lin.Flac.Crc.{
  rounds, crc8_round, crc16_round, crc8_byte, crc16_byte, crc8, crc16,
}
use baxters_stereo_mix_lin.Flac.Crc.Remainder.{
  remainder, checksum, header_polynomial, frame_polynomial,
}
use baxters_stereo_mix_lin.Flac.Crc.Remainder.Rounds.{
  round, round-lt, polynomial, rounds-lt, rounds-xor, rounds-add, rounds-shift, remainder-bits,
  remainder-zeros,
}
use mathlib.Core.List.{foldl}
use native.Mathlib.Nat.{div-add-mod', one-le-pow}

-- A loop over bytes whose step takes a byte in at the top and makes eight rounds.
module _ (k p h : ℕ) (small : p < 2 ^ suc k) (wide : h + 8 ≡ suc k) (fits : 256 * 2 ^ h ≡ 2 ^ suc k)
    (step : ℕ → ℕ → ℕ)
    (step_lem : (c b : ℕ)
      → c < 2 ^ suc k
      → b < 256
      → step c b ≡ rounds (round k p small) 8 (bit_xor c (b * 2 ^ h))) where
  abbrev run : ℕ → ℕ → ℕ
  run n x = rounds (round k p small) n x

  high-lt : (b : ℕ) → b < 256 → b * 2 ^ h < 2 ^ suc k
  high-lt b l = grind (arith, fits)

  byte-lt : (b : ℕ) → b < 256 → b < 2 ^ suc k
  byte-lt b l = grind (arith, fits, one-le-pow h 2)

  run-byte : (b : ℕ) → b < 256 → run 8 (b * 2 ^ h) ≡ run (suc k) b
  run-byte b l =
      ap (run 8) (sym (rounds-shift k p small h b (high-lt b l)))
      ∙ rounds-add k p small h 8 b
      ∙ ap (λ n. run n b) wide

  step-byte :
      (r b : ℕ)
      → r < 2 ^ suc k
      → b < 256
      → step (run (suc k) r) b ≡ run (suc k) (bit_xor (run 8 r) b)
  step-byte r b h' l =
      step_lem (run (suc k) r) b (rounds-lt k p small (suc k) r h') l
      ∙ rounds-xor k p small 8 (run (suc k) r) (b * 2 ^ h) (rounds-lt k p small (suc k) r h')
          (high-lt b l)
      ∙ ap (bit_xor (run 8 (run (suc k) r))) (run-byte b l)
      ∙ ap (λ t. bit_xor t (run (suc k) b))
          (rounds-add k p small (suc k) 8 r
            ∙ ap (λ n. run n r) turn
            ∙ sym (rounds-add k p small 8 (suc k) r))
      ∙ sym (rounds-xor k p small (suc k) (run 8 r) b (rounds-lt k p small 8 r h') (byte-lt b l))
    where
      turn : suc k + 8 ≡ 8 + suc k
      turn = omega arith

  fold-remainder :
      (bs : List ℕ) (r : ℕ)
      → r < 2 ^ suc k
      → All (λ b. b < 256) bs
      → foldl step (run (suc k) r) bs
        ≡ remainder (suc k) (polynomial k p small) r (bytes_bits bs ++ replicate (suc k) 0)
  fold-remainder [] r l all = sym (remainder-zeros k p small (suc k) r l)
  fold-remainder (b ∷ bs) r l all =
      ap (λ t. foldl step t bs) (step-byte r b l all.0)
      ∙ fold-remainder bs next next-lt all.1
      ∙ ap (λ t. remainder (suc k) (polynomial k p small) (bit_xor (run 8 r) t) rest) (sym whole)
      ∙ sym (remainder-bits k p small 8 b r rest (omega (arith, wide)) l)
      ∙ ap (remainder (suc k) (polynomial k p small) r)
          (sym (append_assoc (bits b 8) (bytes_bits bs) (replicate (suc k) 0)))
    where
      next : ℕ
      next = bit_xor (run 8 r) b

      next-lt : next < 2 ^ suc k
      next-lt = bit_xor-lt (suc k) _ _ (rounds-lt k p small 8 r l) (byte-lt b all.0)

      rest : List ℕ
      rest = bytes_bits bs ++ replicate (suc k) 0

      whole : b % 2 ^ 8 ≡ b
      whole = omega (arith, all.0)

  fold-checksum :
      (bs : List ℕ)
      → All (λ b. b < 256) bs
      → foldl step 0 bs ≡ checksum (suc k) (polynomial k p small) (bytes_bits bs)
  unfolding checksum
  fold-checksum bs all =
      let start : 0 ≡ run (suc k) 0 = sym (
        rounds-shift k p small (suc k) 0 (omega (arith, one-le-pow (suc k) 2 (omega arith)))
        ∙ omega arith) in
      ap (λ t. foldl step t bs) start ∙ fold-remainder bs 0 (one-le-pow (suc k) 2 (omega arith)) all

-- Rounds that agree below a bound which they keep.
rounds-agree :
    (f g : ℕ → ℕ) (m : ℕ)
    → ((x : ℕ) → x < m → f x ≡ g x)
    → ((x : ℕ) → x < m → g x < m)
    → (n x : ℕ) → x < m
    → rounds f n x ≡ rounds g n x
unfolding rounds
rounds-agree f g m same kept zero x l = refl
rounds-agree f g m same kept (suc n) x l =
    ap (rounds f n) (same x l) ∙ rounds-agree f g m same kept n (g x) (kept x l)

low8 : 7 < 2 ^ 8
low8 = omega arith

low16 : 0x8005 < 2 ^ 16
low16 = omega arith

crc8_round-round : (x : ℕ) → x < 256 → crc8_round x ≡ round 7 7 low8 x
unfolding agree crc8_round
crc8_round-round = agree→eq crc8_round (round 7 7 low8) 256 refl

top_bit : (x : ℕ) → bit_and x 0x8000 ≡ x / 2 ^ 15 % 2 * 2 ^ 15
top_bit x =
    ap (λ t. bit_and t 0x8000) (sym (div-add-mod' x (2 ^ 15)))
    ∙ bit_and_one 15 (x / 2 ^ 15) (x % 2 ^ 15) (omega arith)

crc16_round-round : (x : ℕ) → x < 2 ^ 16 → crc16_round x ≡ round 15 0x8005 low16 x
unfolding crc16_round
crc16_round-round x l = elim (Bool-cases (bit_and x 0x8000 == 0)) [
  | inl clear ↦
      let top : x / 2 ^ 15 * 0x8005 ≡ 0 = ground (arith, top_bit x, clear) in
      rw (crc16_round, clear)
        (omega arith
          ∙ sym (bit_xor-zero (2 * (x % 2 ^ 15)))
          ∙ ap (bit_xor (2 * (x % 2 ^ 15))) (sym top))
  | inr set ↦
      let top : x / 2 ^ 15 * 0x8005 ≡ 0x8005 = ground (arith, top_bit x, set) in
      let low : x * 2 % 2 ^ 16 ≡ 2 * (x % 2 ^ 15) = omega arith in
      rw (crc16_round, set)
        (ap (λ t. bit_xor t 0x8005) low ∙ ap (bit_xor (2 * (x % 2 ^ 15))) (sym top))
]

-- Of any bytes `crc8` is the checksum of the format's header: the remainder of their bits, with eight
-- zeros behind, by x^8 + x^2 + x + 1.
pub crc8-checksum :
    (bs : List ℕ) → All (λ b. b < 256) bs → crc8 bs ≡ checksum 8 header_polynomial (bytes_bits bs)
unfolding crc8 crc8_byte
crc8-checksum = fold-checksum 7 7 0 low8 refl refl crc8_byte (λ c b l h.
    rounds-agree crc8_round (round 7 7 low8) 256 crc8_round-round (round-lt 7 7 low8) 8
      (bit_xor c b) (bit_xor-lt 8 c b l h)
    ∙ ap (λ t. rounds (round 7 7 low8) 8 (bit_xor c t)) (omega arith))

-- Of any bytes `crc16` is the checksum of the format's frame: the remainder of their bits, with
-- sixteen zeros behind, by x^16 + x^15 + x^2 + 1.
pub crc16-checksum :
    (bs : List ℕ) → All (λ b. b < 256) bs → crc16 bs ≡ checksum 16 frame_polynomial (bytes_bits bs)
unfolding crc16 crc16_byte
crc16-checksum = fold-checksum 15 0x8005 8 low16 refl refl crc16_byte (λ c b l h.
    let low : b * 2 ^ 8 % 2 ^ 16 ≡ b * 2 ^ 8 = omega (arith, h) in
    ap (λ t. rounds crc16_round 8 (bit_xor c t)) low
    ∙ rounds-agree crc16_round (round 15 0x8005 low16) (2 ^ 16) crc16_round-round
        (round-lt 15 0x8005 low16) 8 (bit_xor c (b * 2 ^ 8))
        (bit_xor-lt 16 c (b * 2 ^ 8) l (omega (arith, h))))
