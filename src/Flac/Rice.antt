-- ===== src/Flac/Rice.antt =====
-- Rice coding of residuals: `choose_rice_param` and `encode_residuals` of
-- crates/bsm-encode/src/flac_enc.rs. An `i32` is an integer, its casts are written out.
pub mod RoundTrip
pub mod Parameter
use baxters_stereo_mix_lin.Base.{
  ℕ, zero, suc, ◌+◌, ◌-◌, ◌*◌, ◌/◌, ◌^◌, min, max, List, [], ◌∷◌, bit_and, length, ltb, ◌==◌,
  if◌then◌else◌,
}
use baxters_stereo_mix_lin.Base.Bits.{◌>>>◌, ◌<<<◌, u32, u64}
use baxters_stereo_mix_lin.Base.Int.{ℤ, pos, negsuc, twos}
use baxters_stereo_mix_lin.Flac.BitWriter.{BitWriter, write_bits, write_unary}
use mathlib.Core.List.{foldl}

-- `if r >= 0 { 2 * r as u32 } else { ((-2i64 * r as i64) - 1) as u32 }`; for r = -(n + 1) the
-- second branch is 2 * n + 1.
unfoldable pub fold_u32 : ℤ → ℕ
fold_u32 (pos n) = u32 (2 * n)
fold_u32 (negsuc n) = u32 (2 * n + 1)

-- The same folding `as u64`.
unfoldable pub fold_u64 : ℤ → ℕ
fold_u64 (pos n) = u64 (2 * n)
fold_u64 (negsuc n) = u64 (2 * n + 1)

-- `leading_zeros` of a value of `width` bits.
unfoldable pub leading_zeros : ℕ → ℕ → ℕ
leading_zeros zero n = 0
leading_zeros (suc width) n =
    let rest = leading_zeros width n in if ltb n (2 ^ width) then rest + 1 else 0

abbrev pub folded_sum : List ℤ → ℕ
folded_sum = foldl (λ acc r. u64 (acc + fold_u64 r)) 0

unfoldable pub choose_rice_param : List ℤ → ℕ
choose_rice_param [] = 0
choose_rice_param (r ∷ rs) =
    let mean = folded_sum (r ∷ rs) / length (r ∷ rs) in
    if mean == 0 then 0 else min (64 - leading_zeros 64 mean - 1) 14

-- `.max().unwrap_or(0)` over the quotients.
unfoldable pub max_quotient : ℕ → List ℤ → ℕ
max_quotient k = foldl (λ acc r. max acc (fold_u32 r >>> k)) 0

-- The width of a raw residual.
abbrev pub raw_bps : ℕ
raw_bps = 17

unfoldable pub write_raw : BitWriter → ℤ → BitWriter
write_raw w r = write_bits w (bit_and (twos 64 r) ((1 <<< raw_bps) - 1)) raw_bps

unfoldable pub write_rice : ℕ → BitWriter → ℤ → BitWriter
write_rice k w r =
    let folded = fold_u32 r in
    let quotient = folded >>> k in
    let remainder = bit_and folded ((1 <<< k) - 1) in
    let w' = write_unary w quotient in if ltb 0 k then write_bits w' remainder k else w'

unfoldable pub encode_residuals : BitWriter → List ℤ → BitWriter
encode_residuals w residuals =
    let w = write_bits w 0b00 2 in
    let w = write_bits w 0 4 in
    let k = choose_rice_param residuals in
    if ltb 128 (max_quotient k residuals)
    then foldl write_raw (write_bits (write_bits w 0b1111 4) raw_bps 5) residuals
    else foldl (write_rice k) (write_bits w k 4) residuals
