-- ===== src/Flac/Crc/Remainder.antt =====
-- The checksums of the FLAC format, as it defines them: the remainder of the message, a polynomial
-- with the bits as coefficients, the highest first, times x to the degree, on division by the
-- polynomial of the checksum.
pub mod Rounds
pub mod Bytes
use baxters_stereo_mix_lin.Base.{
  ℕ, ◌+◌, ◌*◌, ◌^◌, List, [], ◌∷◌, ◌++◌, bit_xor, ltb, replicate, if◌then◌else◌,
}

-- Long division by a polynomial of degree `n`.
unfoldable pub remainder : ℕ → ℕ → ℕ → List ℕ → ℕ
remainder n g r [] = r
remainder n g r (b ∷ bs) =
    let next = 2 * r + b in remainder n g (if ltb next (2 ^ n) then next else bit_xor next g) bs

unfoldable pub checksum : ℕ → ℕ → List ℕ → ℕ
checksum n g message = remainder n g 0 (message ++ replicate n 0)

-- x^8 + x^2 + x + 1, of the header, and x^16 + x^15 + x^2 + 1, of the frame.
abbrev pub header_polynomial : ℕ
header_polynomial = 2 ^ 8 + 2 ^ 2 + 2 ^ 1 + 1

abbrev pub frame_polynomial : ℕ
frame_polynomial = 2 ^ 16 + 2 ^ 15 + 2 ^ 2 + 1
