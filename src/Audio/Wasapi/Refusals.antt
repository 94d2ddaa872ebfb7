-- ===== src/Audio/Wasapi/Refusals.antt =====
-- What `WasapiBackend` of crates/bsm-audio/src/wasapi.rs keeps when a device is refused, and the
-- contract of the trait.
use baxters_stereo_mix_lin.Base.{
  ℕ, ◌≡◌, refl, ◌&&◌, Option, none, some, List, get_elem?, ◌==◌, if◌then◌else◌, Bool-cases,
  Option-cases, inl, inr, arith,
}
use baxters_stereo_mix_lin.Core.{PcmFormat}
use baxters_stereo_mix_lin.Audio.Backend.{AudioError, AudioResult, ok, err, IsLawful}
use baxters_stereo_mix_lin.Audio.Negotiation.{negotiate}
use baxters_stereo_mix_lin.Audio.Wasapi.{
  WasapiBackend, InputDevice, Platform, Moment, is_linux, loopback_device_index,
  loopback_device_name, monitor_device_index, monitor_device_name, open_system, open_input,
  open_device, start, stop, close, next_frame, wasapi_backend,
}
use Prim.Native.String.{String}

-- The backend keeps the contract of the trait on every platform.
pub wasapi_backend-IsLawful : (p : Platform) → IsLawful (wasapi_backend p)
unfolding start stop close next_frame
wasapi_backend-IsLawful p = record {
  starts = λ d m e. refl;
  stops = λ d m. refl;
  closes = λ d m. refl;
  silent_when_stopped = λ d m e. rw e refl;
  stays_active = λ d m. ground arith;
}

-- The name of the device that an index stands for, the old name where there is none.
listed_name : Option (List InputDevice) → ℕ → Option String → Option String
listed_name none i old = old
listed_name (some devs) i old = elim (get_elem? devs i) [ none ↦ old | some dev ↦ dev.name ]

unfoldable pub tried_name : Platform → Moment → ℕ → Option String → Option String
unfolding listed_name
tried_name p m i old =
    if i == loopback_device_index
    then some loopback_device_name
    else if is_linux p && (i == monitor_device_index)
    then some monitor_device_name
    else listed_name m.devices i old

module _ (w : WasapiBackend) (e : AudioError) where
  -- A refusal that leaves all but the name, which is `name`.
  Refused : WasapiBackend × AudioResult (Unit {0}) → Option String → Type 0
  Refused r name = r.1 ≡ err e → r.0 ≡ record w { device_name = name }

  open_system-Refused :
      (name : String) (spawned : AudioResult PcmFormat)
      → Refused (open_system w name spawned) (some name)
  unfolding Refused open_system
  open_system-Refused name (ok actual) = λ h. cc
  open_system-Refused name (err x) = λ h. refl

  open_input-Refused :
      (devs : Option (List InputDevice)) (i : ℕ) (format : PcmFormat)
      → Refused (open_input w devs i format) (listed_name devs i w.device_name)
  unfolding Refused open_input listed_name
  open_input-Refused none i format = λ h. refl
  open_input-Refused (some devs) i format = elim (Option-cases (get_elem? devs i)) [
    | inl nothing ↦ rw (open_input, listed_name, nothing) (λ h. refl)
    | inr found ↦ elim (Option-cases found.0.configs) [
      | inl refused ↦ rw (open_input, listed_name, found.1, refused) (λ h. refl)
      | inr listed ↦ elim (Option-cases (negotiate format listed.0)) [
        | inl unsupported ↦ rw (open_input, listed_name, found.1, listed.1, unsupported) (λ h. refl)
        | inr chosen ↦ rw (open_input, listed_name, found.1, listed.1, chosen.1) (λ h. cc)
      ]
    ]
  ]

  open_device-Refused :
      (p : Platform) (m : Moment) (i : ℕ) (format : PcmFormat)
      → Refused (open_device p w m i format) (tried_name p m i w.device_name)
  unfolding open_device tried_name
  open_device-Refused p m i format = elim (Bool-cases (i == loopback_device_index)) [
    | inl loopback ↦ rw (open_device, tried_name, loopback) (open_system-Refused _ _)
    | inr otherwise ↦ elim (Bool-cases (is_linux p && (i == monitor_device_index))) [
      | inl monitor ↦ rw (open_device, tried_name, otherwise, monitor) (open_system-Refused _ _)
      | inr input ↦
          rw (open_device, tried_name, otherwise, input) (open_input-Refused m.devices i format)
    ]
  ]

-- A device that is refused, for whatever reason, leaves the backend as it was but for the name: that
-- becomes the name of the refused device, also when another device stays open.
pub open_device_refused :
    (p : Platform) (w : WasapiBackend) (m : Moment) (i : ℕ) (format : PcmFormat) (e : AudioError)
    → (open_device p w m i format).1 ≡ err e
    → (open_device p w m i format).0 ≡ record w { device_name = tried_name p m i w.device_name }
unfolding Refused
open_device_refused p w m i format e h = open_device-Refused w e p m i format h
