-- ===== src/Flac/StreamInfo.antt =====
-- `build_streaminfo` of crates/bsm-encode/src/flac_enc.rs, and the patch of the sample count that
-- `finalize` of `FlacMuxer` in crates/bsm-encode/src/muxer.rs makes in it.
pub mod RoundTrip
use baxters_stereo_mix_lin.Base.{ℕ, ◌-◌, ◌*◌, ◌^◌, List, [], ◌∷◌, ◌++◌, bit_and, bit_or, replicate}
use baxters_stereo_mix_lin.Base.Bits.{◌<<<◌, ◌>>>◌, u8}

-- 34 bytes. For no channels, or a sample size of 0, the source's subtraction overflows.
unfoldable pub build_streaminfo : ℕ → ℕ → ℕ → ℕ → ℕ → ℕ → List ℕ
build_streaminfo min_block max_block sr channels bits_per_sample ts =
    let ch = channels - 1 in
    let bps = bits_per_sample - 1 in
    u8 (min_block >>> 8)
    ∷ u8 min_block
    ∷ u8 (max_block >>> 8)
    ∷ u8 max_block
    ∷ 0
    ∷ 0
    ∷ 0
    ∷ 0
    ∷ 0
    ∷ 0
    ∷ u8 (sr >>> 12)
    ∷ u8 (sr >>> 4)
    ∷ bit_or (bit_or (u8 (bit_and sr 0xF <<< 4)) (u8 (bit_and ch 0x7 <<< 1)))
        (u8 (bit_and (bps >>> 4) 0x1))
    ∷ bit_or (u8 (bit_and bps 0xF <<< 4)) (u8 (bit_and (ts >>> 32) 0xF))
    ∷ u8 (ts >>> 24)
    ∷ u8 (ts >>> 16)
    ∷ u8 (ts >>> 8)
    ∷ u8 ts
    ∷ replicate 16 0

-- The five bytes from offset 13 of the block on, with the count in them, from the first of those
-- that were read back.
unfoldable pub patch_total : ℕ → ℕ → List ℕ
patch_total first ts =
    bit_or (bit_and first 0xF0) (u8 (bit_and (ts >>> 32) 0x0F))
    ∷ u8 (ts >>> 24)
    ∷ u8 (ts >>> 16)
    ∷ u8 (ts >>> 8)
    ∷ u8 ts
    ∷ []
