-- ===== src/Audio/Channels.antt =====
-- The channel mapping of crates/bsm-audio/src/wasapi.rs, for signed and unsigned 16-bit samples.
pub mod Mapping
use baxters_stereo_mix_lin.Base.{
  ℕ, zero, suc, ◌+◌, ◌*◌, ◌/◌, ◌%◌, ◌^◌, ◌&&◌, Option, none, some, List, [], ◌∷◌, ◌++◌, length,
  get_elem?, ◌==◌, if◌then◌else◌,
}
use baxters_stereo_mix_lin.Base.Bits.{u8}
use baxters_stereo_mix_lin.Base.Int.{ℤ, twos, from_twos}

-- `v.to_le_bytes()` of an `i16`.
unfoldable pub i16_bytes : ℤ → List ℕ
i16_bytes v = (twos 16 v % 256) ∷ (twos 16 v / 256) ∷ []

unfoldable pub all_bytes : List ℤ → List ℕ
all_bytes [] = []
all_bytes (s ∷ rest) = i16_bytes s ++ all_bytes rest

-- `data[i]`, which would panic out of range.
unfoldable pub sample_at : List ℤ → ℕ → ℤ
sample_at samples i = elim (get_elem? samples i) [ none ↦ ℤ.pos 0 | some s ↦ s ]

-- `for rch in 0..req_ch`: the last argument is the number of rounds left, `rch` the round.
unfoldable pub map_frame : List ℤ → ℕ → ℕ → ℕ → ℕ → List ℕ
map_frame samples dev_ch f rch zero = []
map_frame samples dev_ch f rch (suc left) =
    i16_bytes (sample_at samples (f * dev_ch + rch % dev_ch))
    ++ map_frame samples dev_ch f (rch + 1) left

-- `for f in 0..frames`, of the general mapping.
unfoldable pub map_frames : List ℤ → ℕ → ℕ → ℕ → ℕ → List ℕ
map_frames samples dev_ch req_ch f zero = []
map_frames samples dev_ch req_ch f (suc left) =
    map_frame samples dev_ch f 0 req_ch ++ map_frames samples dev_ch req_ch (f + 1) left

-- The same loop of the case mono to stereo.
unfoldable pub duplicate_frames : List ℤ → ℕ → ℕ → List ℕ
duplicate_frames samples f zero = []
duplicate_frames samples f (suc left) =
    i16_bytes (sample_at samples f)
    ++ (i16_bytes (sample_at samples f) ++ duplicate_frames samples (f + 1) left)

unfoldable pub map_i16_channels : List ℤ → ℕ → ℕ → List ℕ
map_i16_channels samples device_channels requested_channels =
    if device_channels == requested_channels
    then all_bytes samples
    else (let frames = if device_channels == 0 then 0 else length samples / device_channels in
        if (device_channels == 1) && (requested_channels == 2)
        then duplicate_frames samples 0 frames
        else map_frames samples device_channels requested_channels 0 frames)

-- `s as i16` of a `u16`.
unfoldable pub as_i16 : ℕ → ℤ
as_i16 s = from_twos 15 s

unfoldable pub as_i16_each : List ℕ → List ℤ
as_i16_each [] = []
as_i16_each (s ∷ rest) = as_i16 s ∷ as_i16_each rest

-- Line for line the mapping of signed samples, each sample cast first.
unfoldable pub map_u16_channels : List ℕ → ℕ → ℕ → List ℕ
map_u16_channels samples device_channels requested_channels =
    map_i16_channels (as_i16_each samples) device_channels requested_channels
