-- ===== src/Flac/Subframe.antt =====
-- One channel of a frame: `encode_subframe` and `encode_subframe_fixed1` of
-- crates/bsm-encode/src/flac_enc.rs. Samples are the integers of an `i16`. The shift `1u64 << bps`
-- is that of a build without overflow checks, which takes `bps` modulo 64; with the checks it panics
-- from 64 on.
pub mod RoundTrip
use baxters_stereo_mix_lin.Base.{
  ℕ, ◌+◌, ◌-◌, ◌*◌, ◌%◌, ◌^◌, Bool, true, List, [], ◌∷◌, ◌&&◌, bit_and, length, leb, if◌then◌else◌,
}
use baxters_stereo_mix_lin.Base.Bits.{◌<<<◌, u64}
use baxters_stereo_mix_lin.Base.Int.{ℤ, ℤ_eq, ◌-ℤ◌, twos}
use baxters_stereo_mix_lin.Flac.BitWriter.{BitWriter, write_bits}
use baxters_stereo_mix_lin.Flac.Rice.{encode_residuals}
use mathlib.Core.List.{foldl}

-- `(1u64 << bps) - 1`; the shift never gives zero.
unfoldable pub mask : ℕ → ℕ
mask bps = u64 (1 <<< (bps % 64)) - 1

-- `(s as i32 as u64) & mask` in `bps` bits.
unfoldable pub write_sample : ℕ → BitWriter → ℤ → BitWriter
write_sample bps w s = write_bits w (bit_and (twos 64 s) (mask bps)) bps

unfoldable pub all_equal : ℤ → List ℤ → Bool
all_equal first [] = true
all_equal first (s ∷ rest) = ℤ_eq s first && all_equal first rest

-- `samples[i] - samples[i - 1]` from the sample after `before` on.
unfoldable pub differences : ℤ → List ℤ → List ℤ
differences before [] = []
differences before (s ∷ rest) = (s -ℤ before) ∷ differences s rest

-- The empty list, on which `samples[0]` would panic, is never passed.
unfoldable pub encode_subframe_fixed1 : BitWriter → List ℤ → ℕ → BitWriter
encode_subframe_fixed1 w [] bps = w
encode_subframe_fixed1 w (first ∷ rest) bps =
    let w = write_bits w 0 1 in
    let w = write_bits w 0b001001 6 in
    let w = write_bits w 0 1 in encode_residuals (write_sample bps w first) (differences first rest)

unfoldable pub encode_subframe : BitWriter → List ℤ → ℕ → BitWriter
encode_subframe w [] bps = w
encode_subframe w (first ∷ rest) bps =
    if all_equal first (first ∷ rest)
    then write_sample bps (write_bits (write_bits (write_bits w 0 1) 0b000000 6) 0 1) first
    else if leb (length (first ∷ rest)) 1
    then foldl (write_sample bps) (write_bits (write_bits (write_bits w 0 1) 0b000001 6) 0 1)
        (first ∷ rest)
    else encode_subframe_fixed1 w (first ∷ rest) bps
