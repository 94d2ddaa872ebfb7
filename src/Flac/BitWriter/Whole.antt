-- ===== src/Flac/BitWriter/Whole.antt =====
-- Whole bytes: what `write_bits` does on a byte boundary.
use baxters_stereo_mix_lin.Base.{
  ℕ, zero, suc, ◌+◌, ◌*◌, ◌/◌, ◌%◌, ◌^◌, ◌≡◌, refl, sym, ap, ◌∙◌, List, [], ◌∷◌, ◌++◌, append_assoc,
  arith, bit_and,
}
use baxters_stereo_mix_lin.Base.Bits.{mod_high, bit_and_mask, pow-add, u8}
use baxters_stereo_mix_lin.Flac.BitWriter.{BitWriter, push_bit, write_bits, byte_align, into_bytes}
use baxters_stereo_mix_lin.Flac.BitWriter.Stream.{IsValid, pending, push_bit-last, push_bit-inner}
use mathlib.Core.Path.{subst}
use native.Mathlib.Nat.{pow-suc, mul_comm, div-div-eq-div-mul}

-- The writer on a byte boundary behind `buf`.
abbrev pub whole : List ℕ → BitWriter
whole buf = record { buf = buf; current = 0; bit_pos = 0 }

low_bit : (a : ℕ) → u8 (bit_and a 1) ≡ a % 2
low_bit a = omega (arith, bit_and_mask 1 a)

-- The rest of a byte.
write_bits-fill :
    (buf : List ℕ) (high room pos v : ℕ)
    → pos + suc room ≡ 8
    → write_bits (pending buf high room pos) v (suc room)
      ≡ whole (buf ++ ((high * 2 ^ suc room + v % 2 ^ suc room) ∷ []))
unfolding write_bits
write_bits-fill buf high zero pos v place =
    let e : 7 ≡ pos = omega arith in
    subst (λ p. write_bits (pending buf high 0 p) v 1 ≡ whole (buf ++ ((high * 2 + v % 2) ∷ []))) e
      (rw (low_bit (v / 1)) (
        push_bit-last buf high (v / 1 % 2) (omega arith)
        ∙ ap (λ t. whole (buf ++ (t ∷ []))) (omega arith)))
write_bits-fill buf high (suc room) pos v place =
    let b = v / 2 ^ suc room % 2 in
    rw (low_bit (v / 2 ^ suc room), push_bit-inner buf high room pos b place (omega arith))
      (write_bits-fill buf (high * 2 + b) room (suc pos) v (omega arith)
        ∙ ap (λ t. whole (buf ++ (t ∷ [])))
            (omega (
              arith,
              mod_high v (suc room),
              ap (λ (t : ℕ). high * t) (pow-suc 2 (suc room)),
              ap (λ (t : ℕ). b * t) (pow-suc 2 (suc room)),
            )))

at_boundary : (w : BitWriter) → IsValid w → w.bit_pos ≡ 0 → w ≡ whole w.buf
at_boundary w v e = ground (arith, v.small, v.clear)

write_bits-fresh :
    (buf : List ℕ) (v : ℕ) → write_bits (whole buf) v 8 ≡ whole (buf ++ ((v % 256) ∷ []))
write_bits-fresh buf v =
    let e : 0 * 2 ^ 8 + v % 2 ^ 8 ≡ v % 256 = omega arith in
    write_bits-fill buf 0 7 0 v refl ∙ ap (λ t. whole (buf ++ (t ∷ []))) e

-- On a byte boundary `write_bits` of eight bits appends a byte.
pub write_bits-byte :
    (w : BitWriter) (v : ℕ)
    → IsValid w
    → w.bit_pos ≡ 0
    → write_bits w v 8 ≡ whole (w.buf ++ ((v % 256) ∷ []))
write_bits-byte w v valid e =
    ap (λ t. write_bits t v 8) (at_boundary w valid e) ∙ write_bits-fresh w.buf v

write_bits-split :
    (w : BitWriter) (v n m : ℕ)
    → write_bits w v (n + m) ≡ write_bits (write_bits w (v / 2 ^ m) n) v m
unfolding write_bits
write_bits-split w v zero m = let e : 0 + m ≡ m = omega arith in ap (λ t. write_bits w v t) e
write_bits-split w v (suc n) m =
    let e : suc n + m ≡ suc (n + m) = omega arith in
    ap (λ t. write_bits w v t) e
    ∙ ap (λ t. write_bits (push_bit w (u8 (bit_and t 1))) v (n + m)) shift
    ∙ write_bits-split (push_bit w (u8 (bit_and (v / 2 ^ m / 2 ^ n) 1))) v n m
  where
    shift : v / 2 ^ (n + m) ≡ v / 2 ^ m / 2 ^ n
    shift =
        ap (λ (t : ℕ). v / t) (pow-add n m ∙ mul_comm (2 ^ n) (2 ^ m))
        ∙ sym (div-div-eq-div-mul v (2 ^ m) (2 ^ n))

-- Sixteen bits on a boundary are two bytes, the high one first.
pub write_bits-two_bytes :
    (w : BitWriter) (v : ℕ)
    → IsValid w
    → w.bit_pos ≡ 0
    → write_bits w v 16 ≡ whole (w.buf ++ ((v / 256 % 256) ∷ (v % 256) ∷ []))
write_bits-two_bytes w v valid e =
    write_bits-split w v 8 8
    ∙ ap (λ t. write_bits t v 8) (write_bits-byte w (v / 256) valid e)
    ∙ write_bits-fresh (w.buf ++ ((v / 256 % 256) ∷ [])) v
    ∙ ap whole (append_assoc w.buf ((v / 256 % 256) ∷ []) ((v % 256) ∷ []))

pub into_bytes-whole : (buf : List ℕ) → into_bytes (whole buf) ≡ buf
unfolding into_bytes byte_align
into_bytes-whole buf = refl
