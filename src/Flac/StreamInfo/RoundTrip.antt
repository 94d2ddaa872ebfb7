-- ===== src/Flac/StreamInfo/RoundTrip.antt =====
-- A decoder of the stream header after the FLAC format, and that it undoes `build_streaminfo`.
use baxters_stereo_mix_lin.Base.{
  ℕ, ◌+◌, ◌-◌, ◌*◌, ◌/◌, ◌%◌, ◌^◌, ◌≤◌, ◌<◌, ◌≡◌, refl, sym, ap, Option, none, some, List, ◌∷◌,
  arith, bit_and, bit_or, get_elem?, overwrite,
}
use baxters_stereo_mix_lin.Base.Bits.{u8, bit_and_mask, bit_or_disjoint, bit_or-zero}
use baxters_stereo_mix_lin.Base.Table.{agree, agree→eq}
use mathlib.Core.Option.{some-injective}
use baxters_stereo_mix_lin.Flac.StreamInfo.{build_streaminfo, patch_total}

pub record StreamInfo : Type 0 where
  pub min_block : ℕ
  pub max_block : ℕ
  pub sample_rate : ℕ
  pub channels : ℕ
  pub bits_per_sample : ℕ
  pub total_samples : ℕ

-- The fields, out of the bytes: 16, 16, 24 and 24 bits, then 20, 3, 5 and 36.
unfoldable pub read_streaminfo : List ℕ → Option StreamInfo
read_streaminfo
      (b0 ∷ b1 ∷ b2 ∷ b3 ∷ b4 ∷ b5 ∷ b6 ∷ b7 ∷ b8 ∷ b9 ∷ b10 ∷ b11 ∷ b12 ∷ b13 ∷ b14 ∷ b15 ∷ b16
        ∷ b17 ∷ md5) =
    some (record {
      min_block = b0 * 256 + b1;
      max_block = b2 * 256 + b3;
      sample_rate = b10 * 4096 + b11 * 16 + b12 / 16;
      channels = b12 / 2 % 8 + 1;
      bits_per_sample = b12 % 2 * 16 + b13 / 16 + 1;
      total_samples = (b13 % 16) * 2 ^ 32 + b14 * 2 ^ 24 + b15 * 2 ^ 16 + b16 * 2 ^ 8 + b17;
    })
read_streaminfo bs = none

module _ (min_block max_block sr ch bps ts : ℕ) where
  byte_12 :
      bit_or
        (bit_or (u8 (bit_and sr 0xF * 2 ^ 4)) (u8 (bit_and ch 0x7 * 2 ^ 1)))
        (u8 (bit_and (bps / 2 ^ 4) 0x1))
      ≡ sr % 16 * 16 + ch % 8 * 2 + bps / 16 % 2
  byte_12 = ground (
    arith,
    bit_and_mask 4 sr,
    bit_and_mask 3 ch,
    bit_and_mask 1 (bps / 16),
    bit_or_disjoint 4 (sr % 16) (ch % 8 * 2) (omega arith),
    bit_or_disjoint 1 (sr % 16 * 8 + ch % 8) (bps / 16 % 2) (omega arith),
  )

  byte_13 :
      bit_or (u8 (bit_and bps 0xF * 2 ^ 4)) (u8 (bit_and (ts / 2 ^ 32) 0xF))
      ≡ bps % 16 * 16 + ts / 2 ^ 32 % 16
  byte_13 = ground (
    arith,
    bit_and_mask 4 bps,
    bit_and_mask 4 (ts / 2 ^ 32),
    bit_or_disjoint 4 (bps % 16) (ts / 2 ^ 32 % 16),
  )

same_info :
    {a b c d e f a' b' c' d' e' f' : ℕ}
    → a ≡ a'
    → b ≡ b'
    → c ≡ c'
    → d ≡ d'
    → e ≡ e'
    → f ≡ f'
    → ◌≡◌ {A = StreamInfo}
        (record {
          min_block = a;
          max_block = b;
          sample_rate = c;
          channels = d;
          bits_per_sample = e;
          total_samples = f;
        })
        (record {
          min_block = a';
          max_block = b';
          sample_rate = c';
          channels = d';
          bits_per_sample = e';
          total_samples = f';
        })
same_info p q r s t u = rw (p, q, r, s, t, u) refl

rate_split :
    (sr c b : ℕ)
    → sr < 2 ^ 20
    → c < 8
    → b < 2
    → u8 (sr / 2 ^ 12) * 4096 + u8 (sr / 2 ^ 4) * 16 + (sr % 16 * 16 + c * 2 + b) / 16 ≡ sr
rate_split sr c b h hc hb = omega arith

total_split :
    (ts b : ℕ)
    → ts < 2 ^ 36
    → (b * 16 + ts / 2 ^ 32 % 16) % 16 * 2 ^ 32
        + u8 (ts / 2 ^ 24) * 2 ^ 24
        + u8 (ts / 2 ^ 16) * 2 ^ 16
        + u8 (ts / 2 ^ 8) * 2 ^ 8
        + u8 ts
      ≡ ts
total_split ts b h = omega arith

-- A stream header whose fields fit their widths is read back.
pub build_streaminfo-decodes :
    (min_block max_block sr ch bps ts : ℕ)
    → min_block < 2 ^ 16
    → max_block < 2 ^ 16
    → sr < 2 ^ 20
    → 1 ≤ ch
    → ch ≤ 8
    → 1 ≤ bps
    → bps ≤ 32
    → ts < 2 ^ 36
    → read_streaminfo (build_streaminfo min_block max_block sr ch bps ts)
      ≡ some (record {
        min_block = min_block;
        max_block = max_block;
        sample_rate = sr;
        channels = ch;
        bits_per_sample = bps;
        total_samples = ts;
      })
unfolding read_streaminfo build_streaminfo
build_streaminfo-decodes min_block max_block sr ch bps ts h0 h1 h2 h3 h4 h5 h6 h7 =
    rw
      (
        byte_12 min_block max_block sr (ch - 1) (bps - 1) ts,
        byte_13 min_block max_block sr (ch - 1) (bps - 1) ts,
      )
      (ap some (
        same_info (omega arith) (omega arith)
          (rate_split sr ((ch - 1) % 8) ((bps - 1) / 16 % 2) h2 (omega arith) (omega arith))
          (omega arith) (omega arith) (total_split ts ((bps - 1) % 16) h7)))

keep_high : (b : ℕ) → b < 256 → bit_and b 0xF0 ≡ b / 16 * 16
unfolding agree
keep_high = agree→eq (λ b. bit_and b 0xF0) (λ b. b / 16 * 16) 256 refl

pub first_kept :
    (b : ℕ) → bit_and (bit_or (u8 (bit_and b 0xF * 2 ^ 4)) 0) 0xF0 ≡ u8 (bit_and b 0xF * 2 ^ 4)
first_kept b =
    ground
      (arith, bit_and_mask 4 b, bit_or-zero (b % 16 * 16), keep_high (b % 16 * 16) (omega arith))

-- Patching the count into a header that was built without one, at its offset and with the byte
-- found there, gives the header built with it.
pub patch_total-build :
    (min_block max_block sr ch bps ts first : ℕ)
    → get_elem? (build_streaminfo min_block max_block sr ch bps 0) 13 ≡ some first
    → overwrite 13 (patch_total first ts) (build_streaminfo min_block max_block sr ch bps 0)
      ≡ build_streaminfo min_block max_block sr ch bps ts
unfolding build_streaminfo patch_total
patch_total-build min_block max_block sr ch bps ts first found =
    rw (sym (some-injective _ _ found), first_kept (bps - 1)) refl
