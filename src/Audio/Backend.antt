-- ===== src/Audio/Backend.antt =====
-- The trait `AudioBackend` of crates/bsm-audio/src/backend.rs as an interface, with the contract
-- that its comments state, and the errors of crates/bsm-core/src/error.rs without their messages.
use baxters_stereo_mix_lin.Base.{ℕ, ◌*◌, ◌≡◌, Bool, true, false, Option, none, List, length}
use baxters_stereo_mix_lin.Core.{PcmFormat, PcmFrame, bytes_per_frame}
use Prim.Native.String.{String}

pub data AudioError : Type 0 where
  device_not_found : AudioError
  device_open_failed : AudioError
  buffer_overrun : AudioError
  device_disconnected : AudioError
  unsupported_format : AudioError
  wasapi_failed : AudioError
  not_active : AudioError

pub data AudioResult (A : Type 0) : Type 0 where
  ok : A → AudioResult A
  err : AudioError → AudioResult A

pub record DeviceEntry : Type 0 where
  pub index : ℕ
  pub name : String
  pub is_default : Bool
  pub is_loopback : Bool

-- `Device` is the backend's state; a `Moment` is what its surroundings give one call: the time, or
-- what the machine's devices and channels answer.
pub record AudioBackend : Type 1 where
  pub Device : Type 0
  pub Moment : Type 0
  pub enumerate_devices : Device → Moment → AudioResult (List DeviceEntry)
  pub open_device : Device → Moment → ℕ → PcmFormat → Device × AudioResult (Unit {0})
  pub start : Device → Moment → Device × AudioResult (Unit {0})
  pub stop : Device → Moment → Device × AudioResult (Unit {0})
  pub close : Device → Moment → Device × AudioResult (Unit {0})
  pub next_frame : Device → Moment → Device × AudioResult (Option PcmFrame)
  pub is_active : Device → Bool
  pub actual_format : Device → Option PcmFormat
  pub device_name : Device → Option String

-- What the comments of the trait promise of a backend's life.
pub record IsLawful (b : AudioBackend) : Type 0 where
  pub starts :
      (d : b.Device) (m : b.Moment) → (b.start d m).1 ≡ ok tt → b.is_active (b.start d m).0 ≡ true
  pub stops : (d : b.Device) (m : b.Moment) → b.is_active (b.stop d m).0 ≡ false
  pub closes : (d : b.Device) (m : b.Moment) → b.is_active (b.close d m).0 ≡ false
  pub silent_when_stopped :
      (d : b.Device) (m : b.Moment) → b.is_active d ≡ false → b.next_frame d m ≡ (d, ok none)
  pub stays_active :
      (d : b.Device) (m : b.Moment) → b.is_active (b.next_frame d m).0 ≡ b.is_active d

-- The bytes of a frame are those that its format and its count of samples call for.
unfoldable pub IsWhole : PcmFrame → Type 0
IsWhole f = length f.payload ≡ f.frame_count * bytes_per_frame f.format
