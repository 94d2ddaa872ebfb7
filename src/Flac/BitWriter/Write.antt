-- ===== src/Flac/BitWriter/Write.antt =====
-- The operations of the bit writer as operations on its bit sequence.
use baxters_stereo_mix_lin.Base.{
  ℕ, zero, suc, ◌/◌, ◌%◌, ◌^◌, ◌≡◌, refl, sym, ap, ◌∙◌, List, [], ◌∷◌, ◌++◌, append-nil,
  append_assoc, arith, bit_and, replicate,
}
use baxters_stereo_mix_lin.Base.Bits.{bit_and_mask, u8}
use baxters_stereo_mix_lin.Flac.BitWriter.{BitWriter, new, push_bit, write_bits, write_unary}
use baxters_stereo_mix_lin.Flac.BitWriter.Stream.{bits, written, IsValid, Extends, push_bit-Extends}

pub Extends-refl : (w : BitWriter) → IsValid w → Extends w w []
Extends-refl w v = record { valid = v; content = sym (append-nil _) }

pub Extends-trans :
    {u w x : BitWriter} {xs ys : List ℕ} → Extends u w xs → Extends w x ys → Extends u x (xs ++ ys)
Extends-trans {u} {xs} {ys} p q = record {
  valid = q.valid;
  content = q.content ∙ ap (λ t. t ++ ys) p.content ∙ append_assoc (written u) xs ys;
}

pub new-IsValid : IsValid new
unfolding new
new-IsValid = record {
  whole = tt;
  high = 0;
  room = 7;
  place = refl;
  clear = refl;
  small = omega arith;
}

pub written-new : written new ≡ []
unfolding new written
written-new = refl

low_bit : (a : ℕ) → u8 (bit_and a 1) ≡ a % 2
low_bit a = omega (arith, bit_and_mask 1 a)

-- On a valid writer `write_bits` appends the low `count` bits of the value, the highest first, and
-- keeps the writer valid.
pub write_bits-Extends :
    (w : BitWriter) (val count : ℕ)
    → IsValid w
    → Extends w (write_bits w val count) (bits val count)
unfolding write_bits
write_bits-Extends w val zero v = Extends-refl w v
write_bits-Extends w val (suc i) v =
    rw (low_bit (val / 2 ^ i))
      (Extends-trans first (write_bits-Extends (push_bit w (val / 2 ^ i % 2)) val i first.valid))
  where
    first : Extends w (push_bit w (val / 2 ^ i % 2)) ((val / 2 ^ i % 2) ∷ [])
    first = push_bit-Extends w (val / 2 ^ i % 2) v (omega arith)

-- `write_unary` appends `count` zeros and a one.
pub write_unary-Extends :
    (w : BitWriter) (count : ℕ)
    → IsValid w
    → Extends w (write_unary w count) (replicate count 0 ++ (1 ∷ []))
unfolding write_unary
write_unary-Extends w zero v = write_bits-Extends w 1 1 v
write_unary-Extends w (suc count) v =
    let first = write_bits-Extends w 0 1 v in
    Extends-trans first (write_unary-Extends (write_bits w 0 1) count first.valid)
