-- ===== src/Config.antt =====
-- `validate_config` of crates/bsm-core/src/config.rs, on the fields that it reads.
pub mod Stored
use baxters_stereo_mix_lin.Base.{
  ℕ, Bool, List, [], ◌∷◌, ◌++◌, length, ltb, ◌==◌, ◌||◌, if◌then◌else◌,
}

pub record BsmConfig : Type 0 where
  pub sample_rate : ℕ
  pub channels : ℕ
  pub buffer_ms : ℕ
  pub bitrate_kbps : ℕ
  pub output_folder : List ℕ
  pub file_name_pattern : List ℕ

pub data ConfigError : Type 0 where
  bad_sample_rate : ConfigError
  bad_channels : ConfigError
  bad_buffer : ConfigError
  bad_bitrate : ConfigError
  no_folder : ConfigError
  no_pattern : ConfigError

-- `if ... { errors.push(...) }`
unfoldable pub push_if : Bool → ConfigError → List ConfigError → List ConfigError
push_if b e errors = if b then errors ++ (e ∷ []) else errors

unfoldable pub validate_config : BsmConfig → List ConfigError
validate_config c =
    let errors = push_if (c.sample_rate == 0) bad_sample_rate [] in
    let errors = push_if ((c.channels == 0) || ltb 8 c.channels) bad_channels errors in
    let errors = push_if (c.buffer_ms == 0) bad_buffer errors in
    let errors = push_if (c.bitrate_kbps == 0) bad_bitrate errors in
    let errors = push_if (length c.output_folder == 0) no_folder errors in
    push_if (length c.file_name_pattern == 0) no_pattern errors
