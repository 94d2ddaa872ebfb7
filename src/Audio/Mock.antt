-- ===== src/Audio/Mock.antt =====
-- `MockAudioBackend` of crates/bsm-audio/src/mock.rs. A moment is the time in microseconds. `tone`
-- stands for the sine computed in floats: the sample of a number at a rate.
use baxters_stereo_mix_lin.Base.{
  ℕ, zero, suc, ◌+◌, ◌*◌, ◌/◌, ◌^◌, ◌<◌, ◌≡◌, refl, ap, ◌∙◌, Bool, true, false, Option, none, some,
  List, [], ◌∷◌, ◌++◌, length, length-append, arith,
}
use baxters_stereo_mix_lin.Base.Bits.{u64}
use baxters_stereo_mix_lin.Base.Int.{ℤ}
use baxters_stereo_mix_lin.Core.{PcmFormat, PcmFrame, bytes_per_sample, bytes_per_frame}
use baxters_stereo_mix_lin.Audio.Backend.{
  AudioBackend, AudioResult, ok, DeviceEntry, IsLawful, IsWhole,
}
use baxters_stereo_mix_lin.Audio.Channels.{i16_bytes}
use baxters_stereo_mix_lin.Audio.Null.{format_or_default, elapsed_us}
use Prim.Native.String.{String}

pub record MockAudioBackend : Type 0 where
  pub active : Bool
  pub format : Option PcmFormat
  pub device_name : String
  pub sequence : ℕ
  pub started_at : Option ℕ

unfoldable pub new : MockAudioBackend
new = record {
  active = false;
  format = none;
  device_name = "Mock Loopback Device";
  sequence = 0;
  started_at = none;
}

unfoldable pub enumerate_devices : MockAudioBackend → AudioResult (List DeviceEntry)
enumerate_devices d = ok (
    record { index = 0; name = "Mock Loopback Device"; is_default = true; is_loopback = true } ∷ [])

unfoldable pub open_device :
    MockAudioBackend → ℕ → PcmFormat → MockAudioBackend × AudioResult (Unit {0})
open_device d device_index fmt = (record d { format = some fmt }, ok tt)

unfoldable pub start : MockAudioBackend → ℕ → MockAudioBackend × AudioResult (Unit {0})
start d now = (record d { active = true; started_at = some now }, ok tt)

unfoldable pub stop : MockAudioBackend → MockAudioBackend × AudioResult (Unit {0})
stop d = (record d { active = false }, ok tt)

unfoldable pub close : MockAudioBackend → MockAudioBackend × AudioResult (Unit {0})
close d = (record d { active = false; format = none }, ok tt)

-- `for _ in 0..fmt.channels`
unfoldable pub repeat_sample : ℤ → ℕ → List ℕ
repeat_sample s zero = []
repeat_sample s (suc left) = i16_bytes s ++ repeat_sample s left

unfoldable pub frames_per_buf : Option PcmFormat → ℕ
frames_per_buf none = 480
frames_per_buf (some fmt) = fmt.sample_rate / 100

module _ (tone : ℕ → ℕ → ℤ) where
  -- `for i in 0..frame_count`: the last argument is the number of rounds left, `n` the sample.
  unfoldable pub tone_bytes : PcmFormat → ℕ → ℕ → List ℕ
  tone_bytes fmt n zero = []
  tone_bytes fmt n (suc left) =
      repeat_sample (tone n fmt.sample_rate) fmt.channels ++ tone_bytes fmt (n + 1) left

  unfoldable pub generate_frame : MockAudioBackend → ℕ → ℕ → MockAudioBackend × PcmFrame
  generate_frame d now frame_count =
      let fmt : PcmFormat = format_or_default d.format in
      (
        record d { sequence = u64 (d.sequence + 1) },
        record {
          payload = tone_bytes fmt (u64 (d.sequence * frame_count)) frame_count;
          format = fmt;
          timestamp_us = elapsed_us d.started_at now;
          sequence = d.sequence;
          frame_count = frame_count;
        },
      )

  unfoldable pub next_frame :
      MockAudioBackend → ℕ → MockAudioBackend × AudioResult (Option PcmFrame)
  next_frame d now = elim d.active [
    | false ↦ (d, ok none)
    | true ↦ let made = generate_frame d now (frames_per_buf d.format) in (made.0, ok (some made.1))
  ]

  abbrev pub mock_backend : AudioBackend
  mock_backend = record {
    Device = MockAudioBackend;
    Moment = ℕ;
    enumerate_devices = λ d m. enumerate_devices d;
    open_device = λ d m i fmt. open_device d i fmt;
    start = start;
    stop = λ d m. stop d;
    close = λ d m. close d;
    next_frame = next_frame;
    is_active = λ d. d.active;
    actual_format = λ d. d.format;
    device_name = λ d. some d.device_name;
  }

  -- The mock keeps the contract of the trait.
  pub mock_backend-IsLawful : IsLawful mock_backend
  unfolding start stop close next_frame generate_frame
  mock_backend-IsLawful = record {
    starts = λ d m e. refl;
    stops = λ d m. refl;
    closes = λ d m. refl;
    silent_when_stopped = λ d m e. rw e refl;
    stays_active = λ d m. ground arith;
  }

  length-repeat_sample : (s : ℤ) (n : ℕ) → length (repeat_sample s n) ≡ 2 * n
  unfolding repeat_sample i16_bytes
  length-repeat_sample s zero = refl
  length-repeat_sample s (suc n) = omega (arith, length-repeat_sample s n)

  length-tone_bytes :
      (fmt : PcmFormat) (n left : ℕ) → length (tone_bytes fmt n left) ≡ left * (2 * fmt.channels)
  unfolding tone_bytes
  length-tone_bytes fmt n zero = omega arith
  length-tone_bytes fmt n (suc left) = grind (
    arith,
    length-append (repeat_sample (tone n fmt.sample_rate) fmt.channels)
        (tone_bytes fmt (n + 1) left),
    length-repeat_sample (tone n fmt.sample_rate) fmt.channels,
    length-tone_bytes fmt (n + 1) left,
  )

  -- With 16-bit samples a frame of the mock has the bytes that its format calls for.
  pub generate_frame-IsWhole :
      (d : MockAudioBackend) (now frame_count : ℕ)
      → (format_or_default d.format).bit_depth ≡ 16
      → (format_or_default d.format).channels < 2 ^ 16
      → IsWhole (generate_frame d now frame_count).1
  unfolding IsWhole generate_frame bytes_per_frame bytes_per_sample
  generate_frame-IsWhole d now frame_count deep few =
      length-tone_bytes fmt (u64 (d.sequence * frame_count)) frame_count
      ∙ ap (λ (k : ℕ). frame_count * k) (rw deep (omega arith))
    where
      fmt : PcmFormat
      fmt = format_or_default d.format
