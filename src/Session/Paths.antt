-- ===== src/Session/Paths.antt =====
-- Output paths and encoders: `resolve_output_path` of crates/bsm-encode/src/output.rs and
-- crates/bsm-encode/src/probe.rs. The file system's answer, and the path that the template and the
-- folder give for a number, are parameters.
use baxters_stereo_mix_lin.Base.{
  ℕ, zero, suc, ◌+◌, ◌≤◌, ◌<◌, ◌≡◌, refl, ◌⊎◌, inl, inr, Bool, true, false, not, Option, none, some,
  List, [], ◌∷◌, if◌then◌else◌, arith, Bool-cases,
}
use baxters_stereo_mix_lin.Core.{output_file, EncodeResult, ok, err}
use Prim.Native.String.{String}
use text.Mathlib.Text.{◌==◌ as ◌=~◌}

at_or_after : (n i : ℕ) → n ≤ i → (n ≡ i) ⊎ (n + 1 ≤ i)
at_or_after n i h = ground arith

module _ {Place : Type 0} (path_of : ℕ → Place) (exists : Place → Bool) where
  -- `for n in 1u32..=9999`: the last argument is the number of rounds left.
  unfoldable pub first_free : ℕ → ℕ → EncodeResult Place
  first_free n zero = err output_file
  first_free n (suc left) =
      let later = first_free (n + 1) left in
      if not (exists (path_of n)) then ok (path_of n) else later

  -- `makes_folder`: whether `create_dir_all` succeeds.
  unfoldable pub resolve_output_path : Bool → EncodeResult Place
  resolve_output_path makes_folder = if makes_folder then first_free 1 9999 else err output_file

  -- What a search from `n` on over `left` numbers finds.
  abbrev pub Found : ℕ → ℕ → EncodeResult Place → Type 0
  Found n left (ok p) =
      (k : ℕ) × (n ≤ k)
      × (k < n + left)
      × (p ≡ path_of k)
      × (exists p ≡ false)
      × ((i : ℕ) → n ≤ i → i < k → exists (path_of i) ≡ true)
  Found n left (err e) = (i : ℕ) → n ≤ i → i < n + left → exists (path_of i) ≡ true

  further :
      (n left : ℕ) (r : EncodeResult Place)
      → exists (path_of n) ≡ true
      → Found (n + 1) left r
      → Found n (suc left) r
  further n left (ok p) here' (k, lo, hi, e, free, before) = (
    k,
    omega arith,
    omega arith,
    e,
    free,
    λ i from below. elim (at_or_after n i from) [
      | inl same ↦ rw (← same) here'
      | inr after ↦ before i after below
    ],
  )
  further n left (err e) here' all = λ i from below. elim (at_or_after n i from) [
    | inl same ↦ rw (← same) here'
    | inr after ↦ all i after (omega arith)
  ]

  first_free-Found : (n left : ℕ) → Found n left (first_free n left)
  unfolding first_free
  first_free-Found n zero = λ i from below. absurd (omega arith)
  first_free-Found n (suc left) = elim (Bool-cases (exists (path_of n))) [
    | inl taken ↦
        rw (first_free, taken)
          (further n left (first_free (n + 1) left) taken (first_free-Found (n + 1) left))
    | inr free ↦
        rw (first_free, free)
          (n, omega arith, omega arith, refl, free, λ i from below. absurd (omega arith))
  ]

  -- What is found where the folder is there, and where it cannot be made.
  abbrev pub Resolved : Bool → EncodeResult Place → Type 0
  Resolved true r = Found 1 9999 r
  Resolved false r = r ≡ err output_file

  -- Where the folder can be made, the path is that of the first number from 1 to 9999 whose path does
  -- not exist, and the search fails only when all of them exist; where it cannot be made, nothing is
  -- searched.
  pub resolve_output_path-Found :
      (makes_folder : Bool) → Resolved makes_folder (resolve_output_path makes_folder)
  unfolding resolve_output_path
  resolve_output_path-Found true = first_free-Found 1 9999
  resolve_output_path-Found false = refl

-- `AudioEncoderInfo`, by its name, and the list of `probe_audio_encoders`.
pub record AudioEncoderInfo : Type 0 where
  pub name : String
  pub long_name : String
  pub sample_rates : List ℕ
  pub channels : List ℕ

abbrev pub wav_info : AudioEncoderInfo
wav_info = record {
  name = "pcm_s16le";
  long_name = "WAV PCM 16-bit";
  sample_rates = 48000 ∷ 44100 ∷ 96000 ∷ [];
  channels = 1 ∷ 2 ∷ [];
}

unfoldable pub probe_audio_encoders : List AudioEncoderInfo
probe_audio_encoders =
    wav_info
    ∷ record {
      name = "mp3";
      long_name = "MP3 (LAME)";
      sample_rates = 48000 ∷ 44100 ∷ [];
      channels = 1 ∷ 2 ∷ [];
    }
    ∷ record {
      name = "flac";
      long_name = "FLAC (native)";
      sample_rates = 48000 ∷ 44100 ∷ 96000 ∷ [];
      channels = 1 ∷ 2 ∷ [];
    }
    ∷ []

-- `for e in &list { if e.name == pref { return Some(e.clone()); } }`
unfoldable pub find_encoder : String → List AudioEncoderInfo → Option AudioEncoderInfo
find_encoder pref [] = none
find_encoder pref (e ∷ rest) =
    let later = find_encoder pref rest in if e.name =~ pref then some e else later

unfoldable pub first_encoder : List AudioEncoderInfo → Option AudioEncoderInfo
first_encoder [] = none
first_encoder (e ∷ rest) = some e

unfoldable pub select_encoder : Option String → Option AudioEncoderInfo
select_encoder none = first_encoder probe_audio_encoders
select_encoder (some pref) = elim (find_encoder pref probe_audio_encoders) [
  | some e ↦ some e
  | none ↦ first_encoder probe_audio_encoders
]
