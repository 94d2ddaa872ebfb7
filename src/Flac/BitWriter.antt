-- ===== src/Flac/BitWriter.antt =====
-- `BitWriter` of crates/bsm-encode/src/flac_enc.rs: bits into bytes, the highest bit first.
pub mod Stream
pub mod Write
pub mod Align
pub mod Whole
use baxters_stereo_mix_lin.Base.{
  ℕ, zero, suc, ◌+◌, ◌-◌, List, [], ◌∷◌, ◌++◌, bit_and, bit_or, ltb, ◌==◌, if◌then◌else◌,
}
use baxters_stereo_mix_lin.Base.Bits.{◌<<<◌, ◌>>>◌, u8}

-- `bit_pos` is the number of bits already written into `current`.
pub record BitWriter : Type 0 where
  pub buf : List ℕ
  pub current : ℕ
  pub bit_pos : ℕ

unfoldable pub new : BitWriter
new = record { buf = []; current = 0; bit_pos = 0 }

-- The body of the loop in `write_bits`, for one bit.
unfoldable pub push_bit : BitWriter → ℕ → BitWriter
push_bit w bit =
    let current = bit_or w.current (u8 (bit <<< (7 - w.bit_pos))) in
    let bit_pos = w.bit_pos + 1 in
    if bit_pos == 8
    then record { buf = w.buf ++ (current ∷ []); current = 0; bit_pos = 0 }
    else record { buf = w.buf; current = current; bit_pos = bit_pos }

-- `for i in (0..count).rev()`: the last argument is the number of rounds left.
unfoldable pub write_bits : BitWriter → ℕ → ℕ → BitWriter
write_bits w val zero = w
write_bits w val (suc i) = write_bits (push_bit w (u8 (bit_and (val >>> i) 1))) val i

unfoldable pub write_unary : BitWriter → ℕ → BitWriter
write_unary w zero = write_bits w 1 1
write_unary w (suc count) = write_unary (write_bits w 0 1) count

unfoldable pub byte_align : BitWriter → BitWriter
byte_align w =
    if ltb 0 w.bit_pos
    then record { buf = w.buf ++ (w.current ∷ []); current = 0; bit_pos = 0 }
    else w

-- The completed bytes.
unfoldable pub bytes : BitWriter → List ℕ
bytes w = w.buf

unfoldable pub into_bytes : BitWriter → List ℕ
into_bytes w = (byte_align w).buf
