-- ===== src/Audio/Null.antt =====
-- `NullBackend` of crates/bsm-audio/src/null.rs. A moment is the time in microseconds.
use baxters_stereo_mix_lin.Base.{
  ℕ, ◌+◌, ◌-◌, ◌*◌, ◌/◌, refl, Bool, true, false, Option, none, some, List, [], ◌∷◌, replicate,
  length-replicate, arith,
}
use baxters_stereo_mix_lin.Base.Bits.{u64}
use baxters_stereo_mix_lin.Core.{PcmFormat, PcmFrame, bytes_per_frame}
use baxters_stereo_mix_lin.Audio.Backend.{
  AudioBackend, AudioResult, ok, DeviceEntry, IsLawful, IsWhole,
}
use Prim.Native.String.{String}

pub record NullBackend : Type 0 where
  pub active : Bool
  pub format : Option PcmFormat
  pub started_at : Option ℕ
  pub sequence : ℕ

unfoldable pub new : NullBackend
new = record { active = false; format = none; started_at = none; sequence = 0 }

abbrev pub null_name : String
null_name = "Null (Silence)"

unfoldable pub enumerate_devices : NullBackend → AudioResult (List DeviceEntry)
enumerate_devices d =
    ok (record { index = 0; name = null_name; is_default = false; is_loopback = false } ∷ [])

unfoldable pub open_device : NullBackend → ℕ → PcmFormat → NullBackend × AudioResult (Unit {0})
open_device d device_index fmt = (record d { format = some fmt }, ok tt)

unfoldable pub start : NullBackend → ℕ → NullBackend × AudioResult (Unit {0})
start d now = (record d { active = true; started_at = some now }, ok tt)

unfoldable pub stop : NullBackend → NullBackend × AudioResult (Unit {0})
stop d = (record d { active = false }, ok tt)

unfoldable pub close : NullBackend → NullBackend × AudioResult (Unit {0})
close d = (record d { active = false; format = none }, ok tt)

-- The format when none was opened.
abbrev pub default_format : PcmFormat
default_format = record { sample_rate = 48000; channels = 2; bit_depth = 16 }

unfoldable pub format_or_default : Option PcmFormat → PcmFormat
format_or_default none = default_format
format_or_default (some fmt) = fmt

-- `started_at.map(|s| s.elapsed().as_micros() as u64).unwrap_or(0)`
unfoldable pub elapsed_us : Option ℕ → ℕ → ℕ
elapsed_us none now = 0
elapsed_us (some started) now = u64 (now - started)

-- Ten milliseconds of silence.
unfoldable pub silence : NullBackend → ℕ → PcmFrame
silence d now =
    let fmt : PcmFormat = format_or_default d.format in
    record {
      payload = replicate (fmt.sample_rate / 100 * bytes_per_frame fmt) 0;
      format = fmt;
      timestamp_us = elapsed_us d.started_at now;
      sequence = d.sequence;
      frame_count = fmt.sample_rate / 100;
    }

unfoldable pub next_frame : NullBackend → ℕ → NullBackend × AudioResult (Option PcmFrame)
next_frame d now = elim d.active [
  | false ↦ (d, ok none)
  | true ↦ (record d { sequence = u64 (d.sequence + 1) }, ok (some (silence d now)))
]

abbrev pub null_backend : AudioBackend
null_backend = record {
  Device = NullBackend;
  Moment = ℕ;
  enumerate_devices = λ d m. enumerate_devices d;
  open_device = λ d m i fmt. open_device d i fmt;
  start = start;
  stop = λ d m. stop d;
  close = λ d m. close d;
  next_frame = next_frame;
  is_active = λ d. d.active;
  actual_format = λ d. d.format;
  device_name = λ d. some null_name;
}

-- The null backend keeps the contract of the trait.
pub null_backend-IsLawful : IsLawful null_backend
unfolding start stop close next_frame
null_backend-IsLawful = record {
  starts = λ d m e. refl;
  stops = λ d m. refl;
  closes = λ d m. refl;
  silent_when_stopped = λ d m e. rw e refl;
  stays_active = λ d m. ground arith;
}

pub silence-IsWhole : (d : NullBackend) (now : ℕ) → IsWhole (silence d now)
unfolding IsWhole silence
silence-IsWhole d now = length-replicate _ 0
