-- ===== src/Core.antt =====
-- Shared types: crates/bsm-core/src/types.rs and crates/bsm-core/src/error.rs, and the packets of
-- crates/bsm-encode/src/encoder.rs. A message that an error carries is left out.
use baxters_stereo_mix_lin.Base.{ℕ, ◌*◌, ◌/◌, List, Bool, true, false, ◌≡◌, refl, ◌⊎◌, inl, inr}
use baxters_stereo_mix_lin.Base.Bits.{u32}
use baxters_stereo_mix_lin.Base.Int.{ℤ}

pub record PcmFormat : Type 0 where
  pub sample_rate : ℕ
  pub channels : ℕ
  pub bit_depth : ℕ

unfoldable pub bytes_per_sample : PcmFormat → ℕ
bytes_per_sample f = f.bit_depth / 8

unfoldable pub bytes_per_frame : PcmFormat → ℕ
bytes_per_frame f = u32 (bytes_per_sample f * f.channels)

unfoldable pub byte_rate : PcmFormat → ℕ
byte_rate f = u32 (bytes_per_frame f * f.sample_rate)

pub record PcmFrame : Type 0 where
  pub payload : List ℕ
  pub format : PcmFormat
  pub timestamp_us : ℕ
  pub sequence : ℕ
  pub frame_count : ℕ

pub record AudioPacket : Type 0 where
  pub payload : List ℕ
  pub pts : ℤ
  pub duration : ℤ
  pub is_key : Bool

pub data EncodeError : Type 0 where
  not_found : EncodeError
  open_failed : EncodeError
  encode_failed : EncodeError
  mux_failed : EncodeError
  output_file : EncodeError
  unsupported_codec : EncodeError

pub data EncodeResult (A : Type 0) : Type 0 where
  ok : A → EncodeResult A
  err : EncodeError → EncodeResult A

abbrev pub is_ok : {A : Type 0} → EncodeResult A → Bool
is_ok (ok a) = true
is_ok (err e) = false

pub EncodeResult-cases :
    {A : Type 0} (r : EncodeResult A) → ((a : A) × (r ≡ ok a)) ⊎ ((e : EncodeError) × (r ≡ err e))
EncodeResult-cases (ok a) = inl (a, refl)
EncodeResult-cases (err e) = inr (e, refl)
