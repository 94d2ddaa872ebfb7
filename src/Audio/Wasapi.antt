-- ===== src/Audio/Wasapi.antt =====
-- `WasapiBackend` of crates/bsm-audio/src/wasapi.rs. A moment holds what the sound libraries answer:
-- the devices with their configurations, the render mix, the sound server, a frame received.
pub mod Formats
pub mod Refusals
use baxters_stereo_mix_lin.Base.{
  ℕ, ◌+◌, ◌/◌, ◌%◌, ◌^◌, ◌≡◌, refl, Bool, true, false, not, ◌&&◌, Option, none, some, List, [], ◌∷◌,
  ◌++◌, length, get_elem?, map, max, ◌==◌, if◌then◌else◌, arith,
}
use baxters_stereo_mix_lin.Base.Bits.{u32}
use baxters_stereo_mix_lin.Base.Int.{ℤ}
use baxters_stereo_mix_lin.Core.{PcmFormat, PcmFrame}
use baxters_stereo_mix_lin.Audio.Backend.{
  AudioBackend, AudioResult, ok, err, DeviceEntry, wasapi_failed, device_not_found,
  unsupported_format, IsLawful,
}
use baxters_stereo_mix_lin.Audio.Channels.{map_i16_channels, map_u16_channels}
use baxters_stereo_mix_lin.Audio.Negotiation.{
  SampleFormat, f32, i16, u16_samples, other, DeviceConfig, NegotiationInfo, negotiate,
}
use baxters_stereo_mix_lin.Audio.Loopback.{MixInfo, to_pcm_format}
use baxters_stereo_mix_lin.Audio.Monitor.{SoundServer, spawn_monitor_capture}
use Prim.Native.String.{String}
use text.Mathlib.Text.{◌==◌ as ◌=~◌}

-- What the capture thread of an input device runs with.
pub record StreamSetup : Type 0 where
  pub device_channels : ℕ
  pub requested_channels : ℕ
  pub sample_rate : ℕ
  pub sample_format : SampleFormat

pub data Capture : Type 0 where
  system_audio : Capture
  input_stream : StreamSetup → Capture

-- `rx` names the capture whose frames arrive, `stop_tx` says whether its stop channel is held.
pub record WasapiBackend : Type 0 where
  pub rx : Option Capture
  pub stop_tx : Bool
  pub active : Bool
  pub actual_format : Option PcmFormat
  pub device_name : Option String

unfoldable pub new : WasapiBackend
new = record {
  rx = none;
  stop_tx = false;
  active = false;
  actual_format = none;
  device_name = none;
}

pub record InputDevice : Type 0 where
  pub name : Option String
  pub configs : Option (List DeviceConfig)

pub data Platform : Type 0 where
  windows : Platform
  linux : Platform
  other_system : Platform

pub record Moment : Type 0 where
  pub devices : Option (List InputDevice)
  pub default_input : Option String
  pub render_mix : AudioResult MixInfo
  pub server : SoundServer
  pub received : AudioResult (Option PcmFrame)

abbrev pub loopback_device_index : ℕ
loopback_device_index = 4294967295

abbrev pub monitor_device_index : ℕ
monitor_device_index = 4294967294

abbrev pub loopback_device_name : String
loopback_device_name = "System Audio (Loopback)"

abbrev pub monitor_device_name : String
monitor_device_name = "System Audio (Monitor)"

abbrev pub is_windows : Platform → Bool
is_windows windows = true
is_windows _ = false

abbrev pub is_linux : Platform → Bool
is_linux linux = true
is_linux _ = false

unfoldable pub name_or_unnamed : Option String → String
name_or_unnamed none = "Unnamed"
name_or_unnamed (some name) = name

unfoldable pub is_default_input : Option String → String → Bool
is_default_input none name = false
is_default_input (some n) name = n =~ name

unfoldable pub input_entries : Platform → Option String → ℕ → List InputDevice → List DeviceEntry
input_entries p default_input i [] = []
input_entries p default_input i (d ∷ rest) =
    record {
      index = u32 i;
      name = name_or_unnamed d.name;
      is_default = is_default_input default_input (name_or_unnamed d.name) && not (is_windows p);
      is_loopback = false;
    }
    ∷ input_entries p default_input (i + 1) rest

unfoldable pub system_entries : Platform → List DeviceEntry
system_entries windows =
    record {
      index = loopback_device_index;
      name = loopback_device_name;
      is_default = true;
      is_loopback = true;
    }
    ∷ []
system_entries linux =
    record {
      index = monitor_device_index;
      name = monitor_device_name;
      is_default = true;
      is_loopback = true;
    }
    ∷ []
system_entries other_system = []

unfoldable pub enumerate_devices : Platform → Moment → AudioResult (List DeviceEntry)
enumerate_devices p m = elim m.devices [
  | none ↦ ok (system_entries p)
  | some devs ↦ ok (system_entries p ++ input_entries p m.default_input 0 devs)
]

-- Off Windows there is no loopback.
unfoldable pub spawn_loopback_capture :
    Platform → AudioResult MixInfo → PcmFormat → AudioResult PcmFormat
spawn_loopback_capture windows mix requested = elim mix [
  | err e ↦ err e
  | ok info ↦ ok (to_pcm_format info (max requested.channels 1))
]
spawn_loopback_capture linux mix requested = err unsupported_format
spawn_loopback_capture other_system mix requested = err unsupported_format

-- The two system paths: the name is set before the capture is tried.
unfoldable pub open_system :
    WasapiBackend → String → AudioResult PcmFormat → WasapiBackend × AudioResult (Unit {0})
open_system w name spawned = elim spawned [
  | err e ↦ (record w { device_name = some name }, err e)
  | ok actual ↦ (
    record w {
      device_name = some name;
      actual_format = some actual;
      rx = some system_audio;
      stop_tx = true;
    },
    ok tt,
  )
]

-- What an input device is opened with, once a configuration is chosen.
unfoldable pub opened_input : WasapiBackend → PcmFormat → NegotiationInfo → WasapiBackend
opened_input w format n = record w {
  actual_format = some (record {
    sample_rate = n.negotiated_sample_rate;
    channels = format.channels;
    bit_depth = n.bit_depth;
  });
  rx = some (
      input_stream (record {
        device_channels = n.channels;
        requested_channels = format.channels;
        sample_rate = n.negotiated_sample_rate;
        sample_format = n.chosen_config.sample_format;
      }));
  stop_tx = true;
}

unfoldable pub open_input :
    WasapiBackend
    → Option (List InputDevice)
    → ℕ
    → PcmFormat
    → WasapiBackend × AudioResult (Unit {0})
open_input w none device_index format = (w, err wasapi_failed)
open_input w (some devs) device_index format = elim (get_elem? devs device_index) [
  | none ↦ (w, err device_not_found)
  | some dev ↦
      let named : WasapiBackend = record w { device_name = dev.name } in
      elim dev.configs [
        | none ↦ (named, err wasapi_failed)
        | some configs ↦ elim (negotiate format configs) [
          | none ↦ (named, err unsupported_format)
          | some n ↦ (opened_input named format n, ok tt)
        ]
      ]
]

unfoldable pub open_device :
    Platform → WasapiBackend → Moment → ℕ → PcmFormat → WasapiBackend × AudioResult (Unit {0})
open_device p w m device_index format =
    if device_index == loopback_device_index
    then open_system w loopback_device_name (spawn_loopback_capture p m.render_mix format)
    else if is_linux p && (device_index == monitor_device_index)
    then open_system w monitor_device_name (spawn_monitor_capture (is_linux p) m.server format)
    else open_input w m.devices device_index format

unfoldable pub start : WasapiBackend → WasapiBackend × AudioResult (Unit {0})
start w = (record w { active = true }, ok tt)

unfoldable pub stop : WasapiBackend → WasapiBackend × AudioResult (Unit {0})
stop w = (record w { active = false; stop_tx = false }, ok tt)

unfoldable pub close : WasapiBackend → WasapiBackend × AudioResult (Unit {0})
unfolding stop
close w = stop w

unfoldable pub next_frame : WasapiBackend → Moment → WasapiBackend × AudioResult (Option PcmFrame)
next_frame w m = elim w.active [
  | false ↦ (w, ok none)
  | true ↦ elim w.rx [ none ↦ (w, ok none) | some capture ↦ (w, m.received) ]
]

abbrev pub wasapi_backend : Platform → AudioBackend
wasapi_backend p = record {
  Device = WasapiBackend;
  Moment = Moment;
  enumerate_devices = λ w m. enumerate_devices p m;
  open_device = open_device p;
  start = λ w m. start w;
  stop = λ w m. stop w;
  close = λ w m. close w;
  next_frame = next_frame;
  is_active = λ w. w.active;
  actual_format = λ w. w.actual_format;
  device_name = λ w. w.device_name;
}
