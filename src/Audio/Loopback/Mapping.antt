-- ===== src/Audio/Loopback/Mapping.antt =====
-- The conversion of the loopback capture against the channel mapping of the device capture.
use baxters_stereo_mix_lin.Base.{
  ℕ, zero, suc, ◌+◌, ◌*◌, ◌/◌, ◌%◌, ◌≤◌, ◌<◌, ◌≡◌, refl, sym, ap, ◌∙◌, true, false, ◌&&◌, List, [],
  ◌∷◌, ◌++◌, append_assoc, length, max, arith, ◌==◌, ltb, Bool-cases, inl, inr, ==_iff,
}
use baxters_stereo_mix_lin.Base.Int.{ℤ, from_twos}
use baxters_stereo_mix_lin.Muxer.FlacStream.{samples_of}
use baxters_stereo_mix_lin.Audio.Channels.{
  i16_bytes, all_bytes, sample_at, map_frame, map_frames, duplicate_frames, map_i16_channels,
}
use baxters_stereo_mix_lin.Audio.Channels.Mapping.{duplicate-map_frames}
use baxters_stereo_mix_lin.Audio.Loopback.{
  MixInfo, byte_at, sample_i16, source_channel, mix_frame, mix_frames, mix_to_i16,
}
use native.Mathlib.Nat.{mul-div_cancel, mod-eq_of_lt, mod-lt}

-- The bytes of `k` samples from `i` on.
from_index : List ℤ → ℕ → ℕ → List ℕ
from_index samples i zero = []
from_index samples i (suc k) = i16_bytes (sample_at samples i) ++ from_index samples (i + 1) k

from_index-cons :
    (s : ℤ) (rest : List ℤ) (i k : ℕ) → from_index (s ∷ rest) (suc i) k ≡ from_index rest i k
unfolding from_index sample_at
from_index-cons s rest i zero = refl
from_index-cons s rest i (suc k) =
    let e : suc i + 1 ≡ suc (i + 1) = omega arith in
    ap (λ (t : List ℕ). i16_bytes (sample_at rest i) ++ t) (rw e (from_index-cons s rest (i + 1) k))

from_index-all_bytes :
    (samples : List ℤ) → from_index samples 0 (length samples) ≡ all_bytes samples
unfolding from_index all_bytes sample_at
from_index-all_bytes [] = refl
from_index-all_bytes (s ∷ rest) =
    ap (λ (t : List ℕ). i16_bytes s ++ t)
      (from_index-cons s rest 0 (length rest) ∙ from_index-all_bytes rest)

from_index-add :
    (samples : List ℤ) (i a b : ℕ)
    → from_index samples i (a + b) ≡ from_index samples i a ++ from_index samples (i + a) b
unfolding from_index
from_index-add samples i zero b =
    let e : i + 0 ≡ i = omega arith in let z : 0 + b ≡ b = omega arith in rw (e, z) refl
from_index-add samples i (suc a) b =
    let e : suc a + b ≡ suc (a + b) = omega arith in
    let z : i + suc a ≡ i + 1 + a = omega arith in
    rw (e, z, from_index, from_index-add samples (i + 1) a b)
      (sym (
        append_assoc (i16_bytes (sample_at samples i)) (from_index samples (i + 1) a)
          (from_index samples (i + 1 + a) b)))

map_frame-same :
    (samples : List ℤ) (src f rch k : ℕ)
    → rch + k ≤ src
    → map_frame samples src f rch k ≡ from_index samples (f * src + rch) k
unfolding map_frame from_index
map_frame-same samples src f rch zero h = refl
map_frame-same samples src f rch (suc k) h =
    let e : rch % src ≡ rch = mod-eq_of_lt (omega arith) in
    let z : f * src + (rch + 1) ≡ f * src + rch + 1 = omega arith in
    rw e (
      ap (λ (t : List ℕ). i16_bytes (sample_at samples (f * src + rch)) ++ t)
        (map_frame-same samples src f (rch + 1) k (omega arith) ∙ rw z refl))

-- With as many channels on both sides the general mapping copies the samples.
map_frames-same :
    (samples : List ℤ) (src f n : ℕ)
    → map_frames samples src src f n ≡ from_index samples (f * src) (n * src)
unfolding map_frames from_index
map_frames-same samples src f zero = let e : 0 * src ≡ 0 = omega arith in rw e refl
map_frames-same samples src f (suc n) =
    let e : suc n * src ≡ src + n * src = grind arith in
    let z : (f + 1) * src ≡ f * src + src = grind arith in
    let o : f * src + 0 ≡ f * src = omega arith in
    rw
      (
        map_frame-same samples src f 0 src (omega arith),
        map_frames-same samples src (f + 1) n,
        o,
        e,
        z,
        from_index-add samples (f * src) src (n * src),
      )
      refl

map_frames-all_bytes :
    (samples : List ℤ) (src n : ℕ)
    → length samples ≡ n * src
    → map_frames samples src src 0 n ≡ all_bytes samples
map_frames-all_bytes samples src n count =
    let o : 0 * src ≡ 0 = omega arith in
    map_frames-same samples src 0 n ∙ rw (o, ← count) (from_index-all_bytes samples)

-- Whatever the channels, the mapping of whole frames is the general one.
map_i16_channels-general :
    (samples : List ℤ) (src dst n : ℕ)
    → 1 ≤ src
    → length samples ≡ n * src
    → map_i16_channels samples src dst ≡ map_frames samples src dst 0 n
unfolding map_i16_channels
map_i16_channels-general samples src dst n some_channel count = elim (Bool-cases (src == dst)) [
  | inl same ↦
      let e : src ≡ dst = (==_iff src dst).0 same in
      rw (map_i16_channels, same) (sym (rw (← e) (map_frames-all_bytes samples src n count)))
  | inr differ ↦ elim (Bool-cases ((src == 1) && (dst == 2))) [
    | inl mono ↦ rw (map_i16_channels, differ, some_frames, frames, mono) (duplicated mono)
    | inr general ↦ rw (map_i16_channels, differ, some_frames, frames, general) refl
  ]
]
  where
    some_frames : (src == 0) ≡ false
    some_frames = ground arith

    frames : length samples / src ≡ n
    frames = rw count (mul-div_cancel n some_channel)

    duplicated :
        ((src == 1) && (dst == 2)) ≡ true
        → duplicate_frames samples 0 n ≡ map_frames samples src dst 0 n
    duplicated mono =
        let one : src ≡ 1 = ground arith in
        let two : dst ≡ 2 = ground arith in rw (one, two) (duplicate-map_frames samples 0 n)

-- Two bytes at an index are the sample of that index.
samples_of-at :
    (bytes : List ℕ) (i : ℕ)
    → i * 2 + 1 < length bytes
    → from_twos 15 (byte_at bytes (i * 2 + 1) * 256 + byte_at bytes (i * 2))
      ≡ sample_at (samples_of bytes) i
unfolding samples_of byte_at sample_at
samples_of-at [] i h = absurd (omega arith)
samples_of-at (x ∷ []) i h = absurd (omega arith)
samples_of-at (lo ∷ hi ∷ rest) zero h = refl
samples_of-at (lo ∷ hi ∷ rest) (suc i) h =
    let e : suc i * 2 + 1 ≡ suc (suc (i * 2 + 1)) = omega arith in
    let z : suc i * 2 ≡ suc (suc (i * 2)) = omega arith in
    rw (e, z) (samples_of-at rest i (omega arith))

length-samples_of : (bytes : List ℕ) (k : ℕ) → length bytes ≡ k * 2 → length (samples_of bytes) ≡ k
unfolding samples_of
length-samples_of [] k h = omega arith
length-samples_of (x ∷ []) k h = absurd (omega arith)
length-samples_of (lo ∷ hi ∷ rest) zero h = absurd (omega arith)
length-samples_of (lo ∷ hi ∷ rest) (suc k) h = ap suc (length-samples_of rest k (omega arith))

source_channel-mod :
    (src dst dch : ℕ) → 1 ≤ src → dch < dst → source_channel src dst dch ≡ dch % src
unfolding source_channel
source_channel-mod src dst dch some_channel inside = elim (Bool-cases (src == dst)) [
  | inl same ↦
      let e : src ≡ dst = (==_iff src dst).0 same in
      rw (source_channel, same) (sym (mod-eq_of_lt (omega arith)))
  | inr differ ↦ elim (Bool-cases (ltb src dst)) [
    | inl up ↦ rw (source_channel, differ, up) refl
    | inr down ↦ rw (source_channel, differ, down) (sym (mod-eq_of_lt (ground arith)))
  ]
]

-- A place in a row before the last lies before the end.
within : (w r f n : ℕ) → f < n → r < w → f * w + r < n * w
within w r f zero low small = absurd (omega arith)
within w r zero (suc n) low small =
    let e : suc n * w ≡ w + n * w = grind arith in
    let z : 0 * w ≡ 0 = omega arith in omega (arith, e, z)
within w r (suc f) (suc n) low small =
    let e : suc n * w ≡ w + n * w = grind arith in
    let z : suc f * w ≡ w + f * w = grind arith in
    omega (arith, e, z, within w r f n (omega arith) small)

module _ (from_f32 : ℕ → ℕ → ℕ → ℕ → ℤ) (bytes : List ℕ) (info : MixInfo) (src dst n : ℕ)
    (ints : info.is_float ≡ false) (deep : info.bits ≡ 16) (some_channel : 1 ≤ src)
    (count : length bytes ≡ n * src * 2) where
  sample_i16-at :
      (ch f : ℕ)
      → f * src + ch < n * src
      → sample_i16 from_f32 bytes info src 2 ch f ≡ sample_at (samples_of bytes) (f * src + ch)
  unfolding sample_i16
  sample_i16-at ch f inside =
      let fits : ltb (length bytes) ((f * src + ch) * 2 + 2) ≡ false = ground arith in
      rw (sample_i16, fits, ints, deep) (samples_of-at bytes (f * src + ch) (omega arith))

  mix_frame-map_frame :
      (f dch k : ℕ)
      → f < n
      → dch + k ≤ dst
      → mix_frame from_f32 bytes info src 2 dst f dch k ≡ map_frame (samples_of bytes) src f dch k
  unfolding mix_frame map_frame
  mix_frame-map_frame f dch zero low h = refl
  mix_frame-map_frame f dch (suc k) low h =
      rw
        (
          source_channel-mod src dst dch some_channel (omega arith),
          sample_i16-at (dch % src) f (inside dch),
          mix_frame-map_frame f (dch + 1) k low (omega arith),
        )
        refl
    where
      inside : (d : ℕ) → f * src + d % src < n * src
      inside d = within src (d % src) f n low (mod-lt d (omega arith))

  mix_frames-map_frames :
      (f k : ℕ)
      → f + k ≤ n
      → mix_frames from_f32 bytes info src 2 dst f k ≡ map_frames (samples_of bytes) src dst f k
  unfolding mix_frames map_frames
  mix_frames-map_frames f zero h = refl
  mix_frames-map_frames f (suc k) h =
      rw
        (
          mix_frame-map_frame f 0 dst (omega arith) (omega arith),
          mix_frames-map_frames (f + 1) k (omega arith),
        )
        refl

-- Of a mix of signed 16-bit samples in whole frames, `mix_to_i16` makes the bytes that
-- `map_i16_channels` makes of the same samples, for all counts of channels that are not 0.
pub mix_to_i16-map_i16_channels :
    (from_f32 : ℕ → ℕ → ℕ → ℕ → ℤ) (bytes : List ℕ) (info : MixInfo) (dst n : ℕ)
    → info.is_float ≡ false
    → info.bits ≡ 16
    → 1 ≤ info.channels
    → 1 ≤ dst
    → length bytes ≡ n * info.channels * 2
    → mix_to_i16 from_f32 bytes info dst ≡ map_i16_channels (samples_of bytes) info.channels dst
unfolding mix_to_i16 map_frames
mix_to_i16-map_i16_channels from_f32 bytes info dst n ints deep some_channel some_wanted count =
    mixed n count
    ∙ sym (
        map_i16_channels-general (samples_of bytes) info.channels dst n some_channel
          (length-samples_of bytes (n * info.channels) count))
  where
    src : ℕ
    src = info.channels

    one_src : max src 1 ≡ src
    one_src = omega arith

    one_dst : max dst 1 ≡ dst
    one_dst = omega arith

    width : max (info.bits / 8) 1 ≡ 2
    width = rw deep refl

    some_stride : (src * 2 == 0) ≡ false
    some_stride = ground arith

    mixed :
        (k : ℕ)
        → length bytes ≡ k * src * 2
        → mix_to_i16 from_f32 bytes info dst ≡ map_frames (samples_of bytes) src dst 0 k
    mixed zero c =
        let short : ltb (length bytes) (src * 2) ≡ true = ground arith in
        rw (mix_to_i16, one_src, one_dst, width, some_stride, short) refl
    mixed (suc k) c =
        let e : suc k * src * 2 ≡ suc k * (src * 2) = grind arith in
        let long : ltb (length bytes) (src * 2) ≡ false = ground arith in
        let frames : length bytes / (src * 2) ≡ suc k =
          rw (c, e) (mul-div_cancel (suc k) (omega arith)) in
        rw (mix_to_i16, one_src, one_dst, width, some_stride, long, frames)
          (mix_frames-map_frames from_f32 bytes info src dst (suc k) ints deep some_channel c 0
            (suc k) (omega arith))
