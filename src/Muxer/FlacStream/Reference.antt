-- ===== src/Muxer/FlacStream/Reference.antt =====
-- The FLAC stream of a whole recording, told without packets, buffers or loops.
use baxters_stereo_mix_lin.Base.{
  ℕ, zero, suc, ◌+◌, ◌-◌, ◌*◌, ◌/◌, ◌≤◌, ◌≡◌, refl, sym, ap, ◌∙◌, List, [], ◌∷◌, ◌++◌, length, take,
  drop, length-drop, arith, if◌then◌else◌, ltb,
}
use baxters_stereo_mix_lin.Base.Bits.{u32, u64}
use baxters_stereo_mix_lin.Base.Int.{ℤ}
use baxters_stereo_mix_lin.Core.{PcmFormat}
use baxters_stereo_mix_lin.Flac.Frame.{encode_frame}
use baxters_stereo_mix_lin.Flac.StreamInfo.{build_streaminfo}
use baxters_stereo_mix_lin.Muxer.FlacStream.{flac_block_size}

unfoldable pub block_samples : PcmFormat → ℕ
block_samples fmt = flac_block_size * fmt.channels

-- The samples from block `q` on.
unfoldable pub from_block : PcmFormat → ℕ → List ℤ → List ℤ
from_block fmt q pcm = drop (q * block_samples fmt) pcm

-- The frames of the first `q` full blocks.
unfoldable pub full_blocks : PcmFormat → ℕ → List ℤ → List ℕ
full_blocks fmt zero pcm = []
full_blocks fmt (suc q) pcm =
    full_blocks fmt q pcm
    ++ encode_frame (take (block_samples fmt) (from_block fmt q pcm)) fmt.channels fmt.sample_rate
        fmt.bit_depth (u32 q)

-- The frame of the samples behind them, none where there is not one for every channel.
unfoldable pub last_block : PcmFormat → ℕ → List ℤ → List ℕ
last_block fmt q pcm =
    let left = from_block fmt q pcm in
    let n = length left / fmt.channels in
    if ltb 0 n
    then encode_frame (take (n * fmt.channels) left) fmt.channels fmt.sample_rate fmt.bit_depth
        (u32 q)
    else []

-- The whole file.
unfoldable pub flac_file : PcmFormat → ℕ → List ℤ → List ℕ
flac_file fmt q pcm =
    (0x66 ∷ 0x4C ∷ 0x61 ∷ 0x43 ∷ 0x80 ∷ 0x00 ∷ 0x00 ∷ 0x22 ∷ [])
    ++ (build_streaminfo flac_block_size flac_block_size fmt.sample_rate fmt.channels fmt.bit_depth
          (u64 (q * flac_block_size + length (from_block fmt q pcm) / fmt.channels))
        ++ (full_blocks fmt q pcm ++ last_block fmt q pcm))

module _ {A : Type 0} where
  pub drop-append : (n : ℕ) (xs ys : List A) → n ≤ length xs → drop n (xs ++ ys) ≡ drop n xs ++ ys
  drop-append zero xs ys h = refl
  drop-append (suc n) [] ys h = absurd (omega arith)
  drop-append (suc n) (x ∷ xs) ys h = drop-append n xs ys (omega arith)

  pub take-append : (n : ℕ) (xs ys : List A) → n ≤ length xs → take n (xs ++ ys) ≡ take n xs
  take-append zero xs ys h = refl
  take-append (suc n) [] ys h = absurd (omega arith)
  take-append (suc n) (x ∷ xs) ys h = ap (λ t. x ∷ t) (take-append n xs ys (omega arith))

  drop-nil : (n : ℕ) → drop {A = A} n [] ≡ []
  drop-nil zero = refl
  drop-nil (suc n) = refl

  pub drop-drop : (m n : ℕ) (xs : List A) → drop n (drop m xs) ≡ drop (m + n) xs
  drop-drop zero n xs = let e : n ≡ 0 + n = omega arith in ap (λ t. drop t xs) e
  drop-drop (suc m) n [] = drop-nil n ∙ sym (drop-nil (suc m + n))
  drop-drop (suc m) n (x ∷ xs) =
      let e : suc (m + n) ≡ suc m + n = omega arith in
      drop-drop m n xs ∙ ap (λ t. drop t (x ∷ xs)) e

-- The next block is `block_samples` further on.
pub from_block-suc :
    (fmt : PcmFormat) (q : ℕ) (pcm : List ℤ)
    → drop (block_samples fmt) (from_block fmt q pcm) ≡ from_block fmt (suc q) pcm
unfolding from_block
from_block-suc fmt q pcm =
    let e : q * block_samples fmt + block_samples fmt ≡ suc q * block_samples fmt = grind arith in
    drop-drop (q * block_samples fmt) (block_samples fmt) pcm ∙ ap (λ t. drop t pcm) e

-- Samples behind the first `q` blocks do not change them.
pub full_blocks-append :
    (fmt : PcmFormat) (q : ℕ) (pcm more : List ℤ)
    → q * block_samples fmt ≤ length pcm
    → full_blocks fmt q (pcm ++ more) ≡ full_blocks fmt q pcm
unfolding full_blocks from_block
full_blocks-append fmt zero pcm more h = refl
full_blocks-append fmt (suc q) pcm more h =
    rw
      (
        full_blocks-append fmt q pcm more (omega (arith, split)),
        drop-append (q * block_samples fmt) pcm more (omega (arith, split)),
        take-append (block_samples fmt) (drop (q * block_samples fmt) pcm) more
            (omega (arith, split, length-drop (q * block_samples fmt) pcm)),
      )
      refl
  where
    split : suc q * block_samples fmt ≡ q * block_samples fmt + block_samples fmt
    split = grind arith

pub from_block-zero : (fmt : PcmFormat) (pcm : List ℤ) → from_block fmt 0 pcm ≡ pcm
unfolding from_block
from_block-zero fmt pcm = let e : 0 * block_samples fmt ≡ 0 = omega arith in ap (λ t. drop t pcm) e

pub length-from_block :
    (fmt : PcmFormat) (q : ℕ) (pcm : List ℤ)
    → length (from_block fmt q pcm) ≡ length pcm - q * block_samples fmt
unfolding from_block
length-from_block fmt q pcm = length-drop (q * block_samples fmt) pcm
