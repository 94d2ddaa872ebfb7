-- ===== src/Flac/Frame.antt =====
-- `encode_frame` of crates/bsm-encode/src/flac_enc.rs: one block of interleaved samples as a FLAC
-- frame. For no channels the source panics on the division; that call is outside the model.
pub mod Decode
pub mod Checked
pub mod Fields
pub mod RoundTrip
use baxters_stereo_mix_lin.Base.{ℕ, ◌-◌, ◌/◌, List, length}
use baxters_stereo_mix_lin.Base.Int.{ℤ}
use baxters_stereo_mix_lin.Flac.BitWriter.{
  BitWriter, new, write_bits, byte_align, bytes, into_bytes,
}
use baxters_stereo_mix_lin.Flac.Crc.{crc8, crc16}
use baxters_stereo_mix_lin.Flac.Header.{
  block_size_code, sample_rate_code, sample_size_code, write_utf8_coded, write_block_size,
  write_sample_rate,
}
use baxters_stereo_mix_lin.Flac.Channels.{deinterleave}
use baxters_stereo_mix_lin.Flac.Subframe.{encode_subframe}
use mathlib.Core.List.{foldl}

-- The header up to the frame number.
unfoldable pub write_fixed_header : BitWriter → ℕ → ℕ → ℕ → ℕ → BitWriter
write_fixed_header w block_size sample_rate channels bits_per_sample =
    let w = write_bits w 0b1111111111111000 16 in
    let w = write_bits w (block_size_code block_size) 4 in
    let w = write_bits w (sample_rate_code sample_rate) 4 in
    let w = write_bits w (channels - 1) 4 in
    let w = write_bits w (sample_size_code bits_per_sample) 3 in write_bits w 0 1

unfoldable pub write_header : BitWriter → ℕ → ℕ → ℕ → ℕ → ℕ → BitWriter
write_header w block_size sample_rate channels bits_per_sample frame_number =
    let w = write_fixed_header w block_size sample_rate channels bits_per_sample in
    let w = write_utf8_coded w frame_number in
    let w = write_block_size w block_size in write_sample_rate w sample_rate

-- `for ch in 0..channels`.
unfoldable pub write_subframes : BitWriter → List (List ℤ) → ℕ → BitWriter
write_subframes w ch_data bits_per_sample =
    foldl (λ w samples. encode_subframe w samples bits_per_sample) w ch_data

unfoldable pub encode_frame : List ℤ → ℕ → ℕ → ℕ → ℕ → List ℕ
encode_frame interleaved channels sample_rate bits_per_sample frame_number =
    let block_size = length interleaved / channels in
    let ch_data = deinterleave channels interleaved in
    let w = write_header new block_size sample_rate channels bits_per_sample frame_number in
    let w = write_bits w (crc8 (bytes w)) 8 in
    let w = byte_align (write_subframes w ch_data bits_per_sample) in
    into_bytes (write_bits w (crc16 (bytes w)) 16)
