-- ===== src/Flac/Reader.antt =====
-- A bit reader after the FLAC format description, independent of the encoder: the reference that
-- the encoder of crates/bsm-encode/src/flac_enc.rs is held to.
pub mod Emits
use baxters_stereo_mix_lin.Base.{
  ℕ, zero, suc, ◌+◌, ◌*◌, ◌^◌, Option, none, some, List, [], ◌∷◌, ◌==◌, if◌then◌else◌,
}
use baxters_stereo_mix_lin.Base.Int.{ℤ, from_twos}

abbrev pub Reader : Type 0 → Type 0
Reader A = List ℕ → Option (A × List ℕ)

abbrev pub pure : {A : Type 0} → A → Reader A
pure a bs = some (a, bs)

abbrev pub refuse : {A : Type 0} → Reader A
refuse bs = none

infixl 5 ◌>>=◌ ◌>>◌
abbrev pub ◌>>=◌ : {A B : Type 0} → Reader A → (A → Reader B) → Reader B
◌>>=◌ r k bs = elim (r bs) [ none ↦ none | some (a, rest) ↦ k a rest ]

abbrev pub ◌>>◌ : {A B : Type 0} → Reader A → Reader B → Reader B
r >> s = r >>= λ _. s

-- `n` bits behind those that `acc` holds.
unfoldable pub read_onto : ℕ → ℕ → Reader ℕ
read_onto zero acc bs = some (acc, bs)
read_onto (suc n) acc [] = none
read_onto (suc n) acc (b ∷ bs) = read_onto n (acc * 2 + b) bs

unfoldable pub read : ℕ → Reader ℕ
read n = read_onto n 0

-- A signed number of `w + 1` bits.
unfoldable pub read_signed : ℕ → Reader ℤ
read_signed w = do n ← read (suc w); pure (from_twos w n)

-- The zeros in front of the next one.
unfoldable pub read_zeros : ℕ → Reader ℕ
read_zeros acc [] = none
read_zeros acc (b ∷ bs) =
    let more = read_zeros (acc + 1) bs in if b == 0 then more else some (acc, bs)

-- `n` bits that must have the value `v`.
unfoldable pub expect : ℕ → ℕ → Reader (Unit {0})
expect n v = do x ← read n; if x == v then pure tt else refuse

unfoldable pub many : {A : Type 0} → ℕ → Reader A → Reader (List A)
many zero r = pure []
many (suc n) r = do a ← r; as' ← many n r; pure (a ∷ as')
