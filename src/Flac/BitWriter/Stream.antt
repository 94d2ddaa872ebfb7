-- ===== src/Flac/BitWriter/Stream.antt =====
-- What a bit writer stands for: the sequence of bits written so far.
use baxters_stereo_mix_lin.Base.{
  ℕ, zero, suc, ◌+◌, ◌-◌, ◌*◌, ◌/◌, ◌%◌, ◌^◌, ◌<◌, ◌≡◌, refl, sym, ap, ◌∙◌, List, [], ◌∷◌, ◌++◌,
  append-nil, append_assoc, arith, All, All-append, bit_or,
}
use baxters_stereo_mix_lin.Base.Bits.{bit_or_disjoint, div_low, pow-add, u8}
use baxters_stereo_mix_lin.Flac.BitWriter.{BitWriter, push_bit}
use mathlib.Core.Path.{subst}
use native.Mathlib.Nat.{pow-suc, one-le-pow, mod-eq_of_lt, mul-div_cancel}

-- The low `n` bits of `v`, the highest first.
abbrev pub bits : ℕ → ℕ → List ℕ
bits v zero = []
bits v (suc i) = (v / 2 ^ i % 2) ∷ bits v i

abbrev pub bytes_bits : List ℕ → List ℕ
bytes_bits [] = []
bytes_bits (b ∷ bs) = bits b 8 ++ bytes_bits bs

pub bytes_bits-append : (xs ys : List ℕ) → bytes_bits (xs ++ ys) ≡ bytes_bits xs ++ bytes_bits ys
bytes_bits-append [] ys = refl
bytes_bits-append (x ∷ xs) ys = ap (◌++◌ (bits x 8)) (bytes_bits-append xs ys)

-- A new lowest bit goes to the end.
pub bits_snoc : (h b n : ℕ) → b < 2 → bits (h * 2 + b) (suc n) ≡ bits h n ++ (b ∷ [])
bits_snoc h b zero l = ground arith
bits_snoc h b (suc n) l = rw (shift, bits_snoc h b n l)
  where
    shift : (h * 2 + b) / 2 ^ suc n ≡ h / 2 ^ n
    shift = rw div_low (ap (λ t. t / 2 ^ n) (omega arith))

-- The bits in the completed bytes, then those in `current`.
unfoldable pub written : BitWriter → List ℕ
written w = bytes_bits w.buf ++ bits (w.current / 2 ^ (8 - w.bit_pos)) w.bit_pos

-- `high` holds the bits written into `current`; the `room + 1` bits below them are still zero.
pub record IsValid (w : BitWriter) : Type 0 where
  pub whole : All (λ b. b < 256) w.buf
  pub high : ℕ
  pub room : ℕ
  pub place : w.bit_pos + suc room ≡ 8
  pub clear : w.current ≡ high * 2 ^ suc room
  pub small : high < 2 ^ w.bit_pos

pub pow_split : (p r : ℕ) → p + suc r ≡ 8 → 2 ^ p * 2 ^ suc r ≡ 256
pow_split p r e = sym (pow-add p (suc r)) ∙ ap (λ (t : ℕ). 2 ^ t) e

-- A writer whose partial byte has the bits of `high` above `room + 1` free bits.
abbrev pub pending : List ℕ → ℕ → ℕ → ℕ → BitWriter
pending buf high room pos = record { buf = buf; current = high * 2 ^ suc room; bit_pos = pos }

pub written-pending :
    (buf : List ℕ) (high room pos : ℕ)
    → pos + suc room ≡ 8
    → written (pending buf high room pos) ≡ bytes_bits buf ++ bits high pos
unfolding written
written-pending buf high room pos place =
    rw (free, mul-div_cancel high (one-le-pow (suc room) 2 (omega arith)))
  where
    free : 8 - pos ≡ suc room
    free = omega arith

module _ (buf : List ℕ) (high room pos b : ℕ) (place : pos + suc room ≡ 8) (bit : b < 2) where
  room_left : 7 - pos ≡ room
  room_left = omega arith

  low_fits : b * 2 ^ room < 2 ^ suc room
  low_fits = grind (arith, pow-suc 2 room, one-le-pow room 2)

  push-current : bit_or (high * 2 ^ suc room) (u8 (b * 2 ^ (7 - pos))) ≡ (high * 2 + b) * 2 ^ room
  push-current =
      rw (room_left, mod-eq_of_lt small, bit_or_disjoint (suc room) high (b * 2 ^ room) low_fits)
        (omega (arith, ap (λ (t : ℕ). high * t) (pow-suc 2 room)))
    where
      small : b * 2 ^ room < 2 ^ 8
      small = grind (arith, pow_split pos room place, low_fits, one-le-pow pos 2)

pub push_bit-last :
    (buf : List ℕ) (high b : ℕ)
    → b < 2
    → push_bit (record { buf = buf; current = high * 2; bit_pos = 7 }) b
      ≡ record { buf = buf ++ ((high * 2 + b) ∷ []); current = 0; bit_pos = 0 }
unfolding push_bit
push_bit-last buf high b bit = ground (arith, push-current buf high 0 7 b (omega arith) bit)

pub push_bit-inner :
    (buf : List ℕ) (high room pos b : ℕ)
    → pos + suc (suc room) ≡ 8
    → b < 2
    → push_bit (record { buf = buf; current = high * 2 ^ suc (suc room); bit_pos = pos }) b
      ≡ record { buf = buf; current = (high * 2 + b) * 2 ^ suc room; bit_pos = suc pos }
unfolding push_bit
push_bit-inner buf high room pos b place bit =
    ground (arith, push-current buf high (suc room) pos b place bit)

-- The writer `w'` is valid and holds the bits of `w`, then `more`.
pub record Extends (w w' : BitWriter) (more : List ℕ) : Type 0 where
  pub valid : IsValid w'
  pub content : written w' ≡ written w ++ more

-- A byte at the end of the buffer, and nothing pending.
pub written-byte :
    (buf : List ℕ) (b : ℕ)
    → written (record { buf = buf ++ (b ∷ []); current = 0; bit_pos = 0 })
      ≡ bytes_bits buf ++ bits b 8
written-byte buf b =
    written-pending (buf ++ (b ∷ [])) 0 7 0 refl
    ∙ append-nil _
    ∙ bytes_bits-append buf (b ∷ [])
    ∙ ap (λ t. bytes_bits buf ++ t) (append-nil (bits b 8))

push_bit-last_Extends :
    (buf : List ℕ) (high b : ℕ)
    → All (λ x. x < 256) buf
    → b < 2
    → high < 2 ^ 7
    → Extends (pending buf high 0 7) (push_bit (pending buf high 0 7) b) (b ∷ [])
push_bit-last_Extends buf high b all bit small = rw (push_bit-last buf high b bit) (record {
  valid = record {
    whole = All-append (λ x. x < 256) buf _ all (omega arith, tt);
    high = 0;
    room = 7;
    place = refl;
    clear = refl;
    small = omega arith;
  };
  content =
      written-byte buf (high * 2 + b)
      ∙ ap (λ t. bytes_bits buf ++ t) (bits_snoc high b 7 bit)
      ∙ sym (append_assoc (bytes_bits buf) (bits high 7) (b ∷ []))
      ∙ ap (λ t. t ++ (b ∷ [])) (sym (written-pending buf high 0 7 refl));
})

push_bit-room :
    (buf : List ℕ) (high room pos b : ℕ)
    → pos + suc room ≡ 8
    → All (λ x. x < 256) buf
    → b < 2
    → high < 2 ^ pos
    → Extends (pending buf high room pos) (push_bit (pending buf high room pos) b) (b ∷ [])
push_bit-room buf high zero pos b place all bit small =
    subst
      (λ p.
        high < 2 ^ p → Extends (pending buf high 0 p) (push_bit (pending buf high 0 p) b) (b ∷ []))
      (omega arith) (push_bit-last_Extends buf high b all bit) small
push_bit-room buf high (suc room) pos b place all bit small =
    rw (push_bit-inner buf high room pos b place bit) (record {
      valid = record {
        whole = all;
        high = high * 2 + b;
        room = room;
        place = omega arith;
        clear = refl;
        small = omega (arith, pow-suc 2 pos);
      };
      content =
          rw
            (
              written-pending buf (high * 2 + b) room (suc pos) (omega arith),
              written-pending buf high (suc room) pos place,
              bits_snoc high b pos bit,
            )
            (sym (append_assoc (bytes_bits buf) (bits high pos) (b ∷ [])));
    })

-- A valid writer is a pending one.
pub pending_of : (w : BitWriter) (v : IsValid w) → w ≡ pending w.buf v.high v.room w.bit_pos
pending_of w v = ground (arith, v.clear)

-- One more bit at the end of the sequence.
pub push_bit-Extends :
    (w : BitWriter) (b : ℕ) → IsValid w → b < 2 → Extends w (push_bit w b) (b ∷ [])
push_bit-Extends w b v bit =
    subst (λ u. Extends u (push_bit u b) (b ∷ [])) (sym (pending_of w v))
      (push_bit-room w.buf v.high v.room w.bit_pos b v.place v.whole bit v.small)
