-- ===== src/Examples/Capture.antt =====
-- Theorems of the capture and of its task at concrete inputs.
use baxters_stereo_mix_lin.Base.{
  ℕ, ◌+◌, ◌-◌, ◌*◌, ◌^◌, ◌<◌, ◌≡◌, refl, true, false, Option, none, some, List, [], ◌∷◌, ◌++◌,
  arith,
}
use baxters_stereo_mix_lin.Base.Int.{ℤ, pos}
use baxters_stereo_mix_lin.Core.{PcmFormat}
use baxters_stereo_mix_lin.Muxer.FlacStream.{samples_of}
use baxters_stereo_mix_lin.Audio.Backend.{ok, err, unsupported_format, IsWhole}
use baxters_stereo_mix_lin.Audio.Channels.{map_i16_channels}
use baxters_stereo_mix_lin.Audio.Negotiation
use baxters_stereo_mix_lin.Audio.Loopback.{MixInfo, mix_to_i16, packet, empty, capture_loop}
use baxters_stereo_mix_lin.Audio.Loopback.Mapping.{mix_to_i16-map_i16_channels}
use baxters_stereo_mix_lin.Audio.Loopback.Capture.{
  IsPacket, IsOrderly, at_first, capture_loop-IsOrderly,
}
use baxters_stereo_mix_lin.Audio.Null
use baxters_stereo_mix_lin.Audio.Null.{null_backend}
use baxters_stereo_mix_lin.Audio.Wasapi
use baxters_stereo_mix_lin.Audio.Wasapi.{
  WasapiBackend, InputDevice, Moment, linux, open_device, open_input, loopback_device_index,
  wasapi_backend,
}
use baxters_stereo_mix_lin.Audio.Wasapi.Formats.{
  count, signed, callback_frame, callback_frame-IsWhole, Opened, open_input-Opened,
}
use baxters_stereo_mix_lin.Audio.Wasapi.Refusals.{tried_name, open_device_refused}
use baxters_stereo_mix_lin.Ipc.Dispatcher
use baxters_stereo_mix_lin.Ipc.Dispatcher.{Dispatcher, audio_stopped}
use baxters_stereo_mix_lin.Ipc.Tasks.{pipeline_task}
use baxters_stereo_mix_lin.Ipc.Tasks.Silence.{ticks, total-null}
use baxters_stereo_mix_lin.Ipc.Meter.{quiet}
use baxters_stereo_mix_lin.Ipc.Tasks.Totals.{total, pipeline_task-totals}
use baxters_stereo_mix_lin.Ipc.Shutdown.Deadline.{poll_until, Explained, poll_until-returns}

-- No float is met.
abbrev no_float : ℕ → ℕ → ℕ → ℕ → ℤ
no_float a b c d = pos 0

abbrev stereo_mix : MixInfo
stereo_mix = record { sample_rate = 48000; channels = 2; bits = 16; is_float = false }

abbrev two_frames : List ℕ
two_frames = 1 ∷ 0 ∷ 2 ∷ 0 ∷ 3 ∷ 0 ∷ 255 ∷ 255 ∷ []

mix_to_i16-map_i16_channels_example :
    mix_to_i16 no_float two_frames stereo_mix 1 ≡ map_i16_channels (samples_of two_frames) 2 1
mix_to_i16-map_i16_channels_example =
    mix_to_i16-map_i16_channels no_float two_frames stereo_mix 1 2 refl refl (omega arith)
      (omega arith) refl

capture_loop-IsOrderly_example : IsOrderly (
    capture_loop no_float stereo_mix 2 at_first
      (record { stopped = false; polls = packet 7 2 false two_frames true ∷ empty ∷ [] } ∷ []))
unfolding IsPacket
capture_loop-IsOrderly_example =
    capture_loop-IsOrderly no_float stereo_mix 2
      (record { stopped = false; polls = packet 7 2 false two_frames true ∷ empty ∷ [] } ∷ [])
      (omega arith) (omega arith) (omega arith) (omega arith) ((refl, (tt, tt)), tt)

abbrev mono_setup : Wasapi.StreamSetup
mono_setup = record {
  device_channels = 1;
  requested_channels = 2;
  sample_rate = 48000;
  sample_format = Negotiation.SampleFormat.i16;
}

abbrev plain : ℤ → ℤ
plain s = s

callback_frame-IsWhole_example :
    IsWhole (callback_frame plain mono_setup 5000 0 (signed (pos 1 ∷ pos 2 ∷ [])))
unfolding count
callback_frame-IsWhole_example =
    callback_frame-IsWhole plain mono_setup 5000 0 2 (signed (pos 1 ∷ pos 2 ∷ [])) (omega arith)
      (omega arith) refl (omega arith)

abbrev stereo : PcmFormat
stereo = record { sample_rate = 48000; channels = 2; bit_depth = 16 }

abbrev one_device : Option (List InputDevice)
one_device = some (
    record {
      name = some "Microphone";
      configs = some (
          record {
            sample_format = Negotiation.SampleFormat.f32;
            channels = 2;
            min_sr = 44100;
            max_sr = 48000;
          }
          ∷ []);
    }
    ∷ [])

open_input-Opened_example : Opened plain (open_input Wasapi.new one_device 0 stereo)
unfolding open_input Negotiation.negotiate Negotiation.choose Negotiation.consider_matching
    Negotiation.consider Negotiation.score Negotiation.in_range Negotiation.same_format
    Negotiation.no_choice
open_input-Opened_example = open_input-Opened plain Wasapi.new one_device 0 stereo refl

abbrev nothing_there : Moment
nothing_there = record {
  devices = none;
  default_input = none;
  render_mix = err unsupported_format;
  server = record { is_valid = λ c r. false; opens = false };
  received = ok none;
}

open_device_refused_example :
    (open_device linux Wasapi.new nothing_there loopback_device_index stereo).0
    ≡ record Wasapi.new { device_name = tried_name linux nothing_there loopback_device_index none }
unfolding open_device Wasapi.open_system Wasapi.spawn_loopback_capture Wasapi.new
open_device_refused_example =
    open_device_refused linux Wasapi.new nothing_there loopback_device_index stereo
      unsupported_format refl

fits :
    (Dispatcher.new 0).quality.samples_captured
      + total
          (pipeline_task null_backend Null.new
            (Dispatcher.start (Dispatcher.new 0) 100 none).quality
            1
            2
            (ticks (3 ∷ []))).sent
    < 2 ^ 64
unfolding Dispatcher.new quiet
fits = omega (arith, total-null (Dispatcher.start (Dispatcher.new 0) 100 none).quality 1 2 (3 ∷ []))

pipeline_task-totals_example :
    (Dispatcher.stop
      (record (Dispatcher.start (Dispatcher.new 0) 100 none) {
        quality =
            (pipeline_task null_backend Null.new
              (Dispatcher.start (Dispatcher.new 0) 100 none).quality
              1
              2
              (ticks (3 ∷ []))).quality;
      })
      900).events
    ≡ (Dispatcher.start (Dispatcher.new 0) 100 none).events
      ++ (audio_stopped 800 (
            total
              (pipeline_task null_backend Null.new
                (Dispatcher.start (Dispatcher.new 0) 100 none).quality
                1
                2
                (ticks (3 ∷ []))).sent)
          ∷ [])
pipeline_task-totals_example =
    pipeline_task-totals null_backend (Dispatcher.new 0) 100 900 none Null.new 1 2 (ticks (3 ∷ []))
      fits

-- A clock that gains 25 ms at each look, and tasks that end before the third.
abbrev slow_clock : ℕ → ℕ
slow_clock k = 25 * k

poll_until-returns_example :
    Explained slow_clock (λ k. 2 - k) 100 (poll_until slow_clock (λ k. 2 - k) 100 7 0)
    × ¬ (
        Explained slow_clock (λ k. 2 - k) 100 (some true)
        × Explained slow_clock (λ k. 2 - k) 100 (some false))
poll_until-returns_example =
    poll_until-returns slow_clock (λ k. 2 - k) 0 100 (λ k. omega arith) (omega arith)
