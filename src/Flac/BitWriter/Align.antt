-- ===== src/Flac/BitWriter/Align.antt =====
-- Byte alignment: where the writer stands, padding, and the bytes that come out.
use baxters_stereo_mix_lin.Base.{
  ℕ, zero, suc, ◌+◌, ◌-◌, ◌*◌, ◌%◌, ◌^◌, ◌<◌, ◌≡◌, refl, sym, ap, ◌∙◌, List, [], ◌∷◌, ◌++◌,
  append-nil, append_assoc, arith, All, All-append, replicate, bit_and, ltb, Bool-cases, ltb→lt,
  lt→ltb, inl, inr,
}
use baxters_stereo_mix_lin.Base.Bits.{◌>>>◌, u8}
use baxters_stereo_mix_lin.Flac.BitWriter.{BitWriter, push_bit, write_bits, byte_align, bytes}
use baxters_stereo_mix_lin.Flac.BitWriter.Stream.{
  bits, bytes_bits, bits_snoc, pow_split, written-byte, written, IsValid, Extends, pending,
  pending_of, written-pending,
}
use baxters_stereo_mix_lin.Flac.BitWriter.Write.{Extends-refl}
use mathlib.Core.Path.{subst}
use native.Mathlib.Nat.{pow-suc, one-le-pow}

replicate_snoc : (k : ℕ) → replicate {A = ℕ} k 0 ++ (0 ∷ []) ≡ replicate (suc k) 0
replicate_snoc zero = refl
replicate_snoc (suc k) = ap (λ t. 0 ∷ t) (replicate_snoc k)

-- Zeros below a number are zeros at the end of its bits.
pub pad_zeros : (h p k : ℕ) → bits (h * 2 ^ k) (p + k) ≡ bits h p ++ replicate k 0
pad_zeros h p zero = rw (once, none_more) (sym (append-nil _))
  where
    once : h * 2 ^ 0 ≡ h
    once = omega arith

    none_more : p + 0 ≡ p
    none_more = omega arith
pad_zeros h p (suc k) =
    rw (double, one_more)
      (bits_snoc (h * 2 ^ k) 0 (p + k) (omega arith)
        ∙ ap (λ t. t ++ (0 ∷ [])) (pad_zeros h p k)
        ∙ append_assoc (bits h p) (replicate k 0) (0 ∷ [])
        ∙ ap (λ t. bits h p ++ t) (replicate_snoc k))
  where
    double : h * 2 ^ suc k ≡ h * 2 ^ k * 2 + 0
    double = omega (arith, ap (λ (t : ℕ). h * t) (pow-suc 2 k))

    one_more : p + suc k ≡ suc (p + k)
    one_more = omega arith

-- The number of zeros up to the next byte boundary.
abbrev pub padding : BitWriter → ℕ
padding w = (8 - w.bit_pos) % 8

pending_small : (h r p : ℕ) → p + suc r ≡ 8 → h < 2 ^ p → h * 2 ^ suc r < 256
pending_small h r p e l = grind (arith, pow_split p r e, one-le-pow (suc r) 2)

align_pending :
    (buf : List ℕ) (h r p : ℕ)
    → p + suc r ≡ 8
    → 0 < p
    → All (λ b. b < 256) buf
    → h < 2 ^ p
    → Extends (pending buf h r p) (byte_align (pending buf h r p)) (replicate (suc r) 0)
unfolding byte_align
align_pending buf h r p e pos all small = rw (lt→ltb 0 p pos) (record {
  valid = record {
    whole = All-append (λ x. x < 256) buf _ all (pending_small h r p e small, tt);
    high = 0;
    room = 7;
    place = refl;
    clear = refl;
    small = omega arith;
  };
  content =
      written-byte buf (h * 2 ^ suc r)
      ∙ ap (λ n. bytes_bits buf ++ bits (h * 2 ^ suc r) n) (sym e)
      ∙ ap (λ t. bytes_bits buf ++ t) (pad_zeros h p (suc r))
      ∙ sym (append_assoc (bytes_bits buf) (bits h p) (replicate (suc r) 0))
      ∙ ap (λ t. t ++ replicate (suc r) 0) (sym (written-pending buf h r p e));
})

byte_align_idle : (w : BitWriter) → w.bit_pos ≡ 0 → byte_align w ≡ w
unfolding byte_align
byte_align_idle w e = ground arith

-- `byte_align` appends zeros up to the next byte boundary, none on a boundary, and keeps the
-- writer valid.
pub byte_align-Extends :
    (w : BitWriter) → IsValid w → Extends w (byte_align w) (replicate (padding w) 0)
byte_align-Extends w v = elim (Bool-cases (ltb 0 w.bit_pos)) [
  | inl inside ↦
      let gap : suc v.room ≡ padding w = omega (arith, v.place, ltb→lt 0 w.bit_pos inside) in
      subst (λ n. Extends w (byte_align w) (replicate n 0)) gap
        (subst (λ u. Extends u (byte_align u) (replicate (suc v.room) 0)) (sym (pending_of w v))
          (align_pending w.buf v.high v.room w.bit_pos v.place (ltb→lt 0 _ inside) v.whole v.small))
  | inr outside ↦
      let idle : w.bit_pos ≡ 0 = ground arith in
      let gap : 0 ≡ padding w = omega arith in
      subst (λ n. Extends w (byte_align w) (replicate n 0)) gap
        (rw (byte_align_idle w idle) (Extends-refl w v))
]

pub byte_align-bit_pos : (w : BitWriter) → (byte_align w).bit_pos ≡ 0
unfolding byte_align
byte_align-bit_pos w = ground arith

push_bit-bit_pos :
    (w : BitWriter) (b : ℕ) → w.bit_pos < 8 → (push_bit w b).bit_pos ≡ (w.bit_pos + 1) % 8
unfolding push_bit
push_bit-bit_pos w b h = ground arith

-- `write_bits` moves the position on by the count.
pub write_bits-bit_pos :
    (w : BitWriter) (val count : ℕ)
    → w.bit_pos < 8
    → (write_bits w val count).bit_pos ≡ (w.bit_pos + count) % 8
unfolding write_bits
write_bits-bit_pos w val zero h = omega arith
write_bits-bit_pos w val (suc i) h = omega (
  arith,
  push_bit-bit_pos w (u8 (bit_and (val >>> i) 1)) h,
  write_bits-bit_pos (push_bit w (u8 (bit_and (val >>> i) 1))) val i
      (omega (arith, push_bit-bit_pos w (u8 (bit_and (val >>> i) 1)) h)),
)

-- On a byte boundary the completed bytes are all that was written.
pub bytes-written : (w : BitWriter) → w.bit_pos ≡ 0 → bytes_bits (bytes w) ≡ written w
unfolding bytes written
bytes-written w e = rw e (sym (append-nil _))
