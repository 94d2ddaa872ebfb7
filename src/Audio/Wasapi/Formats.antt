-- ===== src/Audio/Wasapi/Formats.antt =====
-- The frames of an input stream, from the callbacks of `open_device` in
-- crates/bsm-audio/src/wasapi.rs, and the format that the backend reports for them. `to_i16` stands
-- for a float scaled by 32767 and cast.
use baxters_stereo_mix_lin.Base.{
  ℕ, suc, ◌*◌, ◌/◌, ◌%◌, ◌^◌, ◌≤◌, ◌<◌, ◌≡◌, ◌≢◌, ◌↔◌, refl, ap, ◌∙◌, Option, none, some, List, [],
  ◌∷◌, length, get_elem?, map, arith, Option-cases, inl, inr,
}
use baxters_stereo_mix_lin.Base.Bits.{u32}
use baxters_stereo_mix_lin.Base.Int.{ℤ}
use baxters_stereo_mix_lin.Core.{PcmFormat, PcmFrame, bytes_per_sample, bytes_per_frame}
use baxters_stereo_mix_lin.Audio.Backend.{AudioError, AudioResult, ok, err, IsWhole}
use baxters_stereo_mix_lin.Audio.Channels.{map_i16_channels, map_u16_channels, as_i16_each}
use baxters_stereo_mix_lin.Audio.Channels.Mapping.{map_i16_channels-length}
use baxters_stereo_mix_lin.Audio.Negotiation.{
  SampleFormat, f32, i16, u16_samples, other, NegotiationInfo, bit_depth_of, choose, negotiate,
  DeviceConfig,
}
use baxters_stereo_mix_lin.Audio.Wasapi.{
  StreamSetup, input_stream, WasapiBackend, InputDevice, opened_input, open_input,
}
use mathlib.Core.Path.{subst}
use mathlib.Core.Option.{none-ne-some, some-injective}
use native.Mathlib.Nat.{mul-div_cancel, mod-eq_of_lt}

-- The samples of one callback.
pub data Samples (F : Type 0) : Type 0 where
  floats : List F → Samples F
  signed : List ℤ → Samples F
  unsigned : List ℕ → Samples F

unfoldable pub count : {F : Type 0} → Samples F → ℕ
count (floats l) = length l
count (signed l) = length l
count (unsigned l) = length l

module _ {F : Type 0} (to_i16 : F → ℤ) where
  -- Line for line the mapping of signed samples, each sample scaled first.
  unfoldable pub map_f32_channels : List F → ℕ → ℕ → List ℕ
  map_f32_channels samples device_channels requested_channels =
      map_i16_channels (map to_i16 samples) device_channels requested_channels

  unfoldable pub mapped : Samples F → ℕ → ℕ → List ℕ
  mapped (floats l) dev_ch req_ch = map_f32_channels l dev_ch req_ch
  mapped (signed l) dev_ch req_ch = map_i16_channels l dev_ch req_ch
  mapped (unsigned l) dev_ch req_ch = map_u16_channels l dev_ch req_ch

  unfoldable pub callback_frame : StreamSetup → ℕ → ℕ → Samples F → PcmFrame
  callback_frame setup now_us seq samples = record {
    payload = mapped samples setup.device_channels setup.requested_channels;
    format = record {
      sample_rate = setup.sample_rate;
      channels = setup.requested_channels;
      bit_depth = 16;
    };
    timestamp_us = now_us / 1000;
    sequence = seq;
    frame_count = u32 (count samples) / setup.device_channels;
  }

length-map : {F : Type 0} (f : F → ℤ) (l : List F) → length (map f l) ≡ length l
length-map f [] = refl
length-map f (x ∷ l) = ap suc (length-map f l)

length-as_i16_each : (l : List ℕ) → length (as_i16_each l) ≡ length l
unfolding as_i16_each
length-as_i16_each [] = refl
length-as_i16_each (x ∷ l) = ap suc (length-as_i16_each l)

length-mapped :
    {F : Type 0} (to_i16 : F → ℤ) (samples : Samples F) (dev_ch req_ch n : ℕ)
    → 1 ≤ dev_ch
    → count samples ≡ n * dev_ch
    → length (mapped to_i16 samples dev_ch req_ch) ≡ n * (req_ch * 2)
unfolding count mapped map_f32_channels map_u16_channels
length-mapped to_i16 (floats l) dev_ch req_ch n some_channel e =
    map_i16_channels-length (map to_i16 l) dev_ch req_ch n some_channel (length-map to_i16 l ∙ e)
length-mapped to_i16 (signed l) dev_ch req_ch n some_channel e =
    map_i16_channels-length l dev_ch req_ch n some_channel e
length-mapped to_i16 (unsigned l) dev_ch req_ch n some_channel e =
    map_i16_channels-length (as_i16_each l) dev_ch req_ch n some_channel (length-as_i16_each l ∙ e)

-- A callback with whole frames of the device, fewer than 2^32 samples of them, makes a frame with
-- the bytes that its format and count call for, whatever the sample format and the channels.
pub callback_frame-IsWhole :
    {F : Type 0} (to_i16 : F → ℤ) (setup : StreamSetup) (now_us seq n : ℕ) (samples : Samples F)
    → 1 ≤ setup.device_channels
    → setup.requested_channels < 2 ^ 16
    → count samples ≡ n * setup.device_channels
    → n * setup.device_channels < 2 ^ 32
    → IsWhole (callback_frame to_i16 setup now_us seq samples)
unfolding IsWhole callback_frame bytes_per_frame bytes_per_sample
callback_frame-IsWhole to_i16 setup now_us seq n samples some_channel few e small =
    length-mapped to_i16 samples setup.device_channels setup.requested_channels n some_channel e
    ∙ rw (frames, ← two) refl
  where
    fits : u32 (count samples) ≡ n * setup.device_channels
    fits = rw e (mod-eq_of_lt small)

    frames : u32 (count samples) / setup.device_channels ≡ n
    frames = rw fits (mul-div_cancel n some_channel)

    two : setup.requested_channels * 2 ≡ 2 * setup.requested_channels % 2 ^ 32
    two = omega arith

negotiate-depth :
    (format : PcmFormat) (configs : List DeviceConfig) (n : NegotiationInfo)
    → negotiate format configs ≡ some n
    → n.bit_depth ≡ bit_depth_of n.chosen_config.sample_format
unfolding negotiate
negotiate-depth format configs n e = elim (Option-cases (choose format configs).chosen) [
  | inl nothing ↦ absurd (none-ne-some n (rw (negotiate, nothing) at e))
  | inr found ↦
      let (cfg, chosen) = found in
      subst (λ (k : NegotiationInfo). k.bit_depth ≡ bit_depth_of k.chosen_config.sample_format)
        (some-injective _ n (rw (negotiate, chosen) at e)) refl
]

err≢ok : {e : AudioError} → ◌≡◌ {A = AudioResult (Unit {0})} (err e) (ok tt) → ⊥
err≢ok h = cc

abbrev deep : ℕ → ℕ → ℕ → PcmFormat
deep rate ch bits = record { sample_rate = rate; channels = ch; bit_depth = bits }

formats-agree :
    (sf : SampleFormat) (rate ch depth : ℕ)
    → depth ≡ bit_depth_of sf
    → (deep rate ch 16 ≡ deep rate ch depth) ↔ (sf ≢ f32)
unfolding bit_depth_of
formats-agree f32 rate ch depth e = (
  λ same. absurd (let d = ap (λ (f : PcmFormat). f.bit_depth) same in omega (arith, d, e)),
  λ differ. absurd (differ refl),
)
formats-agree i16 rate ch depth e = (λ same f. cc, λ differ. rw e refl)
formats-agree u16_samples rate ch depth e = (λ same f. cc, λ differ. rw e refl)
formats-agree other rate ch depth e = (λ same f. cc, λ differ. rw e refl)

-- What a successful opening of an input device leaves.
pub record Opened {F : Type 0} (to_i16 : F → ℤ) (r : WasapiBackend × AudioResult (Unit {0}))
    : Type 0 where
  pub setup : StreamSetup
  pub reported : PcmFormat
  pub receives : r.0.rx ≡ some (input_stream setup)
  pub reports : r.0.actual_format ≡ some reported
  pub agree :
      (now_us seq : ℕ) (samples : Samples F)
      → ((callback_frame to_i16 setup now_us seq samples).format ≡ reported)
        ↔ (setup.sample_format ≢ f32)

-- After an input device was opened, the frames that its callbacks make have the format that the
-- backend reports exactly when the sample format chosen is not `F32`.
pub open_input-Opened :
    {F : Type 0} (to_i16 : F → ℤ) (w : WasapiBackend) (devs : Option (List InputDevice)) (i : ℕ)
    (format : PcmFormat)
    → (open_input w devs i format).1 ≡ ok tt
    → Opened to_i16 (open_input w devs i format)
unfolding open_input callback_frame opened_input
open_input-Opened to_i16 w none i format e = absurd (err≢ok e)
open_input-Opened to_i16 w (some devs) i format e = elim (Option-cases (get_elem? devs i)) [
  | inl nothing ↦ absurd (err≢ok (rw (open_input, nothing) at e))
  | inr found ↦ elim (Option-cases found.0.configs) [
    | inl refused ↦ absurd (err≢ok (rw (open_input, found.1, refused) at e))
    | inr listed ↦ elim (Option-cases (negotiate format listed.0)) [
      | inl unsupported ↦ absurd (err≢ok (rw (open_input, found.1, listed.1, unsupported) at e))
      | inr chosen ↦
          rw (open_input, found.1, listed.1, chosen.1)
            (record {
              setup = record {
                device_channels = chosen.0.channels;
                requested_channels = format.channels;
                sample_rate = chosen.0.negotiated_sample_rate;
                sample_format = chosen.0.chosen_config.sample_format;
              };
              reported = deep chosen.0.negotiated_sample_rate format.channels chosen.0.bit_depth;
              receives = refl;
              reports = refl;
              agree = λ now_us seq samples.
                  formats-agree chosen.0.chosen_config.sample_format _ _ _
                    (negotiate-depth format listed.0 chosen.0 chosen.1);
            })
    ]
  ]
]
