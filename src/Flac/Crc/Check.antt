-- ===== src/Flac/Crc/Check.antt =====
-- The check that a decoder makes: over the data and its checksum, the checksum is zero.
use baxters_stereo_mix_lin.Base.{
  ℕ, zero, suc, ◌+◌, ◌*◌, ◌/◌, ◌%◌, ◌^◌, ◌<◌, ◌≡◌, refl, ap, ◌∙◌, List, [], ◌∷◌, ◌++◌, arith,
  bit_xor,
}
use baxters_stereo_mix_lin.Base.Bits.{bit_xor_self, bit_xor_high, bit_xor-lt}
use baxters_stereo_mix_lin.Base.Table.{agree, agree→eq}
use baxters_stereo_mix_lin.Flac.Crc.{
  crc8_round, crc16_round, rounds, crc8_byte, crc16_byte, crc8, crc16,
}
use mathlib.Core.List.{foldl}

foldl-append {ℓ κ} :
    {A : Type ℓ} {B : Type κ} (f : B → A → B) (b : B) (xs ys : List A)
    → foldl f b (xs ++ ys) ≡ foldl f (foldl f b xs) ys
foldl-append f b [] ys = refl
foldl-append f b (x ∷ xs) ys = foldl-append f (f b x) xs ys

-- Appending the CRC-8 of the data makes the CRC-8 zero.
pub crc8_residue : (data' : List ℕ) → crc8 (data' ++ (crc8 data' ∷ [])) ≡ 0
unfolding crc8
crc8_residue data' = foldl-append crc8_byte 0 data' (crc8 data' ∷ []) ∙ cancel (crc8 data')
  where
    cancel : (c : ℕ) → crc8_byte c c ≡ 0
    cancel c = unfold crc8_byte in rw (bit_xor_self c) (unfold rounds crc8_round in refl)

-- Eight rounds move the low byte up: no bit falls out.
low_byte_up : (x : ℕ) → x < 256 → rounds crc16_round 8 x ≡ x * 256
unfolding agree rounds crc16_round
low_byte_up = agree→eq (λ x. rounds crc16_round 8 x) (λ x. x * 256) 256 refl

-- The high byte of the checksum cancels, and leaves the low byte above eight zeros.
high_byte : (hi lo : ℕ) → hi < 256 → lo < 256 → crc16_byte (hi * 256 + lo) hi ≡ lo * 256
unfolding crc16_byte
high_byte hi lo h l =
    ap (rounds crc16_round 8) (ap (bit_xor (hi * 256 + lo)) fits ∙ bit_xor_high 8 hi hi lo l ∙ drop)
    ∙ low_byte_up lo l
  where
    fits : hi * 2 ^ 8 % 2 ^ 16 ≡ hi * 2 ^ 8
    fits = omega arith

    drop : bit_xor hi hi * 2 ^ 8 + lo ≡ lo
    drop = rw (bit_xor_self hi) (omega arith)

low_byte : (lo : ℕ) → lo < 256 → crc16_byte (lo * 256) lo ≡ 0
unfolding crc16_byte
low_byte lo l =
    ap (rounds crc16_round 8) (ap (bit_xor (lo * 256)) fits ∙ bit_xor_self (lo * 256))
    ∙ unfold rounds crc16_round in refl
  where
    fits : lo * 2 ^ 8 % 2 ^ 16 ≡ lo * 256
    fits = omega arith

round-lt : (c : ℕ) → c < 2 ^ 16 → crc16_round c < 2 ^ 16
unfolding crc16_round
round-lt c h = ground (arith, bit_xor-lt 16 (c * 2 % 65536) 0x8005)

rounds-lt : (n c : ℕ) → c < 2 ^ 16 → rounds crc16_round n c < 2 ^ 16
unfolding rounds
rounds-lt zero c h = h
rounds-lt (suc n) c h = rounds-lt n (crc16_round c) (round-lt c h)

byte-lt : (c b : ℕ) → c < 2 ^ 16 → crc16_byte c b < 2 ^ 16
unfolding crc16_byte
byte-lt c b h = rounds-lt 8 _ (bit_xor-lt 16 c (b * 2 ^ 8 % 2 ^ 16) h (omega arith))

crc16-lt : (data' : List ℕ) (crc : ℕ) → crc < 2 ^ 16 → foldl crc16_byte crc data' < 2 ^ 16
crc16-lt [] crc h = h
crc16-lt (b ∷ bs) crc h = crc16-lt bs (crc16_byte crc b) (byte-lt crc b h)

pub crc16_lt : (data' : List ℕ) → crc16 data' < 2 ^ 16
unfolding crc16
crc16_lt data' = crc16-lt data' 0 (omega arith)

round8-lt : (c : ℕ) → crc8_round c < 2 ^ 8
unfolding crc8_round
round8-lt c = ground (arith, bit_xor-lt 8 (c * 2 % 256) 0x07)

rounds8-lt : (n c : ℕ) → rounds crc8_round (suc n) c < 2 ^ 8
unfolding rounds
rounds8-lt zero c = round8-lt c
rounds8-lt (suc n) c = rounds8-lt n (crc8_round c)

foldl8-lt : (data' : List ℕ) (crc : ℕ) → crc < 2 ^ 8 → foldl crc8_byte crc data' < 2 ^ 8
unfolding crc8_byte
foldl8-lt [] crc h = h
foldl8-lt (b ∷ bs) crc h = foldl8-lt bs (crc8_byte crc b) (rounds8-lt 7 (bit_xor crc b))

pub crc8-lt : (data' : List ℕ) → crc8 data' < 2 ^ 8
unfolding crc8
crc8-lt data' = foldl8-lt data' 0 (omega arith)

-- Appending the CRC-16 of the data, the high byte first, makes the CRC-16 zero.
pub crc16_residue :
    (data' : List ℕ) → crc16 (data' ++ ((crc16 data' / 256) ∷ (crc16 data' % 256) ∷ [])) ≡ 0
unfolding crc16
crc16_residue data' =
    foldl-append crc16_byte 0 data' _
    ∙ ap (λ t. crc16_byte t (c % 256))
        (ap (λ t. crc16_byte t (c / 256)) split
          ∙ high_byte (c / 256) (c % 256) (omega (arith, crc16-lt data' 0 (omega arith)))
              (omega arith))
    ∙ low_byte (c % 256) (omega arith)
  where
    c : ℕ
    c = foldl crc16_byte 0 data'

    split : c ≡ c / 256 * 256 + c % 256
    split = omega arith
