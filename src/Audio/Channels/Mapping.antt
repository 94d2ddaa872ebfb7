-- ===== src/Audio/Channels/Mapping.antt =====
-- What the channel mapping keeps, and what the cast of unsigned samples does.
use baxters_stereo_mix_lin.Base.{
  ℕ, zero, suc, ◌+◌, ◌*◌, ◌/◌, ◌%◌, ◌^◌, ◌≤◌, ◌<◌, ◌≡◌, ◌≢◌, refl, ap, ◌∙◌, ◌&&◌, true, false, List,
  [], ◌∷◌, length, length-append, arith, ◌==◌, All, Bool-cases, inl, inr, ==_iff,
}
use baxters_stereo_mix_lin.Base.Int.{ℤ, pos, negsuc, twos, from_twos, sub_ℕ, InWidth}
use baxters_stereo_mix_lin.Muxer.FlacStream.{samples_of}
use baxters_stereo_mix_lin.Audio.Channels.{
  i16_bytes, all_bytes, map_frame, map_frames, duplicate_frames, map_i16_channels, as_i16,
}
use native.Mathlib.Nat.{mul-div_cancel}

-- The special case of mono to stereo is the general mapping.
pub duplicate-map_frames :
    (samples : List ℤ) (f n : ℕ) → duplicate_frames samples f n ≡ map_frames samples 1 2 f n
unfolding duplicate_frames map_frames map_frame i16_bytes
duplicate-map_frames samples f zero = refl
duplicate-map_frames samples f (suc n) =
    let e : f * 1 + 0 ≡ f = omega arith in rw (e, duplicate-map_frames samples (f + 1) n) refl

-- Every frame of the device gives one of the requested channels: two bytes for each.
length-map_frame :
    (samples : List ℤ) (dev_ch f rch n : ℕ) → length (map_frame samples dev_ch f rch n) ≡ n * 2
unfolding map_frame i16_bytes
length-map_frame samples dev_ch f rch zero = omega arith
length-map_frame samples dev_ch f rch (suc n) =
    omega (arith, length-map_frame samples dev_ch f (rch + 1) n)

pub length-map_frames :
    (samples : List ℤ) (dev_ch req_ch f n : ℕ)
    → length (map_frames samples dev_ch req_ch f n) ≡ n * (req_ch * 2)
unfolding map_frames
length-map_frames samples dev_ch req_ch f zero = omega arith
length-map_frames samples dev_ch req_ch f (suc n) = grind (
  arith,
  length-append (map_frame samples dev_ch f 0 req_ch) (map_frames samples dev_ch req_ch (f + 1) n),
  length-map_frame samples dev_ch f 0 req_ch,
  length-map_frames samples dev_ch req_ch (f + 1) n,
)

back : (s : ℤ) → InWidth 15 s → from_twos 15 (twos 16 s / 256 * 256 + twos 16 s % 256) ≡ s
back (pos n) h = ground arith
back (negsuc n) h = ground arith

-- An `i16` comes back from its two bytes.
pub all_bytes-samples_of :
    (samples : List ℤ) → All (InWidth 15) samples → samples_of (all_bytes samples) ≡ samples
unfolding samples_of all_bytes i16_bytes
all_bytes-samples_of [] all = refl
all_bytes-samples_of (s ∷ rest) all =
    rw (all_bytes-samples_of rest all.1) (ap (λ t. t ∷ rest) (back s all.0))

-- Unsigned samples are centred on 32768. The cast gives none of them the value it has.
pub as_i16-off_centre : (s : ℕ) → s < 2 ^ 16 → as_i16 s ≢ sub_ℕ s 32768
unfolding as_i16
as_i16-off_centre s small e = ground (arith, e, small)

length-all_bytes : (samples : List ℤ) → length (all_bytes samples) ≡ length samples * 2
unfolding all_bytes i16_bytes
length-all_bytes [] = omega arith
length-all_bytes (s ∷ rest) = omega (arith, length-all_bytes rest)

-- The bytes of a mapping: each frame of the device has all its requested channels.
pub map_i16_channels-length :
    (samples : List ℤ) (dev_ch req_ch n : ℕ)
    → 1 ≤ dev_ch
    → length samples ≡ n * dev_ch
    → length (map_i16_channels samples dev_ch req_ch) ≡ n * (req_ch * 2)
unfolding map_i16_channels
map_i16_channels-length samples dev_ch req_ch n some_channel count =
    elim (Bool-cases (dev_ch == req_ch)) [
      | inl same ↦
          let e : dev_ch ≡ req_ch = (==_iff dev_ch req_ch).0 same in
          rw (map_i16_channels, same) (length-all_bytes samples ∙ rw (count, e) (grind arith))
      | inr differ ↦ elim (Bool-cases ((dev_ch == 1) && (req_ch == 2))) [
        | inl mono ↦
            rw (map_i16_channels, differ, some_frames, frames, mono) (duplicate_length mono)
        | inr general ↦
            rw (map_i16_channels, differ, some_frames, frames, general)
              (length-map_frames samples dev_ch req_ch 0 n)
      ]
    ]
  where
    some_frames : (dev_ch == 0) ≡ false
    some_frames = ground arith

    frames : length samples / dev_ch ≡ n
    frames = rw count (mul-div_cancel n some_channel)

    duplicate_length :
        ((dev_ch == 1) && (req_ch == 2)) ≡ true
        → length (duplicate_frames samples 0 n) ≡ n * (req_ch * 2)
    duplicate_length mono =
        let two : req_ch ≡ 2 = ground arith in
        ap length (duplicate-map_frames samples 0 n)
        ∙ length-map_frames samples 1 2 0 n
        ∙ rw two refl
