-- ===== src/Flac/Header.antt =====
-- Fields of the frame header: `block_size_code`, `sample_rate_code`, `sample_size_code` and
-- `write_utf8_coded` of crates/bsm-encode/src/flac_enc.rs.
pub mod Codes
pub mod Number
use baxters_stereo_mix_lin.Base.{
  ℕ, ◌-◌, ◌*◌, ◌/◌, ◌%◌, ◌^◌, ◌&&◌, bit_and, bit_or, ltb, leb, ◌==◌, if◌then◌else◌,
}
use baxters_stereo_mix_lin.Base.Bits.{◌>>>◌}
use baxters_stereo_mix_lin.Flac.BitWriter.{BitWriter, write_bits}

unfoldable pub block_size_code : ℕ → ℕ
block_size_code bs =
    if bs == 192
    then 1
    else if bs == 576
    then 2
    else if bs == 1152
    then 3
    else if bs == 2304
    then 4
    else if bs == 4608
    then 5
    else if bs == 256
    then 8
    else if bs == 512
    then 9
    else if bs == 1024
    then 10
    else if bs == 2048
    then 11
    else if bs == 4096
    then 12
    else if bs == 8192
    then 13
    else if bs == 16384
    then 14
    else if bs == 32768
    then 15
    else if leb bs 256
    then 6
    else 7

unfoldable pub sample_rate_code : ℕ → ℕ
sample_rate_code sr =
    if sr == 88200
    then 1
    else if sr == 176400
    then 2
    else if sr == 192000
    then 3
    else if sr == 8000
    then 4
    else if sr == 16000
    then 5
    else if sr == 22050
    then 6
    else if sr == 24000
    then 7
    else if sr == 32000
    then 8
    else if sr == 44100
    then 9
    else if sr == 48000
    then 10
    else if sr == 96000
    then 11
    else if (sr % 1000 == 0) && leb (sr / 1000) 255
    then 12
    else if leb sr 65535
    then 13
    else 14

unfoldable pub sample_size_code : ℕ → ℕ
sample_size_code bps =
    if bps == 8
    then 1
    else if bps == 12
    then 2
    else if bps == 16
    then 4
    else if bps == 20
    then 5
    else if bps == 24
    then 6
    else if bps == 32
    then 7
    else 0

-- `(0x80 | ((val >> shift) & 0x3F))`.
unfoldable pub continuation : ℕ → ℕ → ℕ
continuation val shift = bit_or 0x80 (bit_and (val >>> shift) 0x3F)

unfoldable pub write_utf8_coded : BitWriter → ℕ → BitWriter
write_utf8_coded w val =
    if ltb val 0x80
    then write_bits w val 8
    else if ltb val 0x800
    then write_bits (write_bits w (bit_or 0xC0 (val >>> 6)) 8) (continuation val 0) 8
    else if ltb val 0x10000
    then write_bits (write_bits (write_bits w (bit_or 0xE0 (val >>> 12)) 8) (continuation val 6) 8)
        (continuation val 0) 8
    else if ltb val 0x200000
    then write_bits
        (write_bits (write_bits (write_bits w (bit_or 0xF0 (val >>> 18)) 8) (continuation val 12) 8)
          (continuation val 6) 8)
        (continuation val 0) 8
    else write_bits
        (write_bits
          (write_bits
            (write_bits (write_bits w (bit_or 0xF8 (val >>> 24)) 8) (continuation val 18) 8)
            (continuation val 12) 8)
          (continuation val 6) 8)
        (continuation val 0) 8

-- The optional bytes of `encode_frame` behind the frame number. For a block size of 0, which is
-- never encoded, `block_size - 1` would overflow.
unfoldable pub write_block_size : BitWriter → ℕ → BitWriter
write_block_size w block_size =
    if block_size_code block_size == 6
    then write_bits w (block_size - 1) 8
    else if block_size_code block_size == 7
    then write_bits w (block_size - 1) 16
    else w

unfoldable pub write_sample_rate : BitWriter → ℕ → BitWriter
write_sample_rate w sample_rate =
    if sample_rate_code sample_rate == 12
    then write_bits w (sample_rate / 1000) 8
    else if sample_rate_code sample_rate == 13
    then write_bits w sample_rate 16
    else if sample_rate_code sample_rate == 14
    then write_bits w (sample_rate / 10) 16
    else w
