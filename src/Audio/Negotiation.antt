-- ===== src/Audio/Negotiation.antt =====
-- The choice of a device configuration: `diagnose_negotiation` of crates/bsm-audio/src/wasapi.rs,
-- over the list of configurations that the device reports. The list of candidate rates is kept in
-- the order of its making; the source sorts it at the end.
pub mod Best
use baxters_stereo_mix_lin.Base.{
  ℕ, ◌+◌, ◌-◌, ◌^◌, ◌&&◌, ◌||◌, not, Bool, true, false, Option, none, some, List, [], ◌∷◌, ◌++◌,
  ltb, leb, ◌==◌, if◌then◌else◌,
}
use baxters_stereo_mix_lin.Core.{PcmFormat}
use mathlib.Core.List.{foldl}

pub data SampleFormat : Type 0 where
  f32 : SampleFormat
  i16 : SampleFormat
  u16_samples : SampleFormat
  other : SampleFormat

pub record DeviceConfig : Type 0 where
  pub sample_format : SampleFormat
  pub channels : ℕ
  pub min_sr : ℕ
  pub max_sr : ℕ

unfoldable pub same_format : SampleFormat → SampleFormat → Bool
same_format f32 f32 = true
same_format i16 i16 = true
same_format u16_samples u16_samples = true
same_format other other = true
same_format _ _ = false

unfoldable pub in_range : ℕ → ℕ → ℕ → Bool
in_range sr min_sr max_sr = leb min_sr sr && leb sr max_sr

-- The distance of the rate from the range, less a bonus for the wanted sample format.
unfoldable pub score : PcmFormat → DeviceConfig → ℕ
score format cfg =
    let sr = format.sample_rate in
    let far =
      if in_range sr cfg.min_sr cfg.max_sr
      then 0
      else if ltb sr cfg.min_sr
      then cfg.min_sr - sr
      else sr - cfg.max_sr in
    let adj =
      if (format.bit_depth == 32) && same_format cfg.sample_format f32 then far - 1000 else far in
    if (format.bit_depth == 16)
      && (same_format cfg.sample_format i16 || same_format cfg.sample_format u16_samples)
    then adj - 1000
    else adj

-- `best_score` and the configuration it belongs to.
pub record Choice : Type 0 where
  pub best_score : ℕ
  pub chosen : Option DeviceConfig

unfoldable pub no_choice : Choice
no_choice = record { best_score = 2 ^ 64 - 1; chosen = none }

unfoldable pub consider : PcmFormat → Choice → DeviceConfig → Choice
consider format c cfg =
    if ltb (score format cfg) c.best_score
    then (record { best_score = score format cfg; chosen = some cfg })
    else c

-- The pass that skips other channel counts, and the one that does not.
unfoldable pub consider_matching : PcmFormat → Choice → DeviceConfig → Choice
consider_matching format c cfg =
    if cfg.channels == format.channels then consider format c cfg else c

unfoldable pub choose : PcmFormat → List DeviceConfig → Choice
choose format configs =
    let first = foldl (consider_matching format) no_choice configs in
    elim first.chosen [ some cfg ↦ first | none ↦ foldl (consider format) first configs ]

-- `configs.iter().find(...)`: the channels of the first configuration with the chosen format.
unfoldable pub chosen_channels : SampleFormat → ℕ → List DeviceConfig → ℕ
chosen_channels sf channels [] = channels
chosen_channels sf channels (cfg ∷ rest) =
    let later = chosen_channels sf channels rest in
    if same_format cfg.sample_format sf then cfg.channels else later

unfoldable pub negotiated_rate : ℕ → DeviceConfig → ℕ
negotiated_rate sr cfg =
    if in_range sr cfg.min_sr cfg.max_sr
    then sr
    else if ltb sr cfg.min_sr
    then cfg.min_sr
    else cfg.max_sr

unfoldable pub bit_depth_of : SampleFormat → ℕ
bit_depth_of f32 = 32
bit_depth_of i16 = 16
bit_depth_of u16_samples = 16
bit_depth_of other = 16

pub record NegotiationInfo : Type 0 where
  pub channels : ℕ
  pub chosen_config : DeviceConfig
  pub negotiated_sample_rate : ℕ
  pub bit_depth : ℕ
  pub score_found : ℕ

-- None stands for the error `UnsupportedFormat`.
unfoldable pub negotiate : PcmFormat → List DeviceConfig → Option NegotiationInfo
negotiate format configs =
    let c = choose format configs in
    elim c.chosen [
      | none ↦ none
      | some cfg ↦ some (record {
        channels = chosen_channels cfg.sample_format format.channels configs;
        chosen_config = cfg;
        negotiated_sample_rate = negotiated_rate format.sample_rate cfg;
        bit_depth = bit_depth_of cfg.sample_format;
        score_found = c.best_score;
      })
    ]
