-- ===== src/Flac/Crc.antt =====
-- `crc8` and `crc16` of crates/bsm-encode/src/flac_enc.rs, bit by bit as the source computes them.
pub mod Check
pub mod Remainder
use baxters_stereo_mix_lin.Base.{
  ℕ, zero, suc, ◌*◌, ◌^◌, List, bit_and, bit_xor, ◌==◌, if◌then◌else◌,
}
use baxters_stereo_mix_lin.Base.Bits.{◌<<<◌, u8, u16}
use mathlib.Core.List.{foldl}

-- One round of the inner loop.
unfoldable pub crc8_round : ℕ → ℕ
crc8_round crc = if bit_and crc 0x80 == 0 then u8 (crc <<< 1) else bit_xor (u8 (crc <<< 1)) 0x07

unfoldable pub crc16_round : ℕ → ℕ
crc16_round crc =
    if bit_and crc 0x8000 == 0 then u16 (crc <<< 1) else bit_xor (u16 (crc <<< 1)) 0x8005

-- `for _ in 0..n`.
unfoldable pub rounds : (ℕ → ℕ) → ℕ → ℕ → ℕ
rounds f zero crc = crc
rounds f (suc n) crc = rounds f n (f crc)

unfoldable pub crc8_byte : ℕ → ℕ → ℕ
crc8_byte crc b = rounds crc8_round 8 (bit_xor crc b)

unfoldable pub crc16_byte : ℕ → ℕ → ℕ
crc16_byte crc b = rounds crc16_round 8 (bit_xor crc (u16 (b <<< 8)))

unfoldable pub crc8 : List ℕ → ℕ
crc8 data' = foldl crc8_byte 0 data'

unfoldable pub crc16 : List ℕ → ℕ
crc16 data' = foldl crc16_byte 0 data'
