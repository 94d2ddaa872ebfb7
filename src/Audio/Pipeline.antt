-- ===== src/Audio/Pipeline.antt =====
-- `CapturePipeline` of crates/bsm-audio/src/pipeline.rs, over any backend.
use baxters_stereo_mix_lin.Base.{ℕ, Option, List}
use baxters_stereo_mix_lin.Core.{PcmFormat, PcmFrame}
use baxters_stereo_mix_lin.Audio.Backend.{AudioBackend, AudioResult, DeviceEntry}

pub record DeviceConfig : Type 0 where
  pub preferred_format : PcmFormat

unfoldable pub with_format : PcmFormat → DeviceConfig
with_format fmt = record { preferred_format = fmt }

module _ (b : AudioBackend) where
  pub record CapturePipeline : Type 0 where
    pub backend : b.Device
    pub requested_format : PcmFormat

  unfoldable pub new : b.Device → PcmFormat → CapturePipeline
  new d fmt = record { backend = d; requested_format = fmt }

  unfoldable pub set_requested_format : CapturePipeline → PcmFormat → CapturePipeline
  set_requested_format p fmt = record p { requested_format = fmt }

  unfoldable pub negotiated_format : CapturePipeline → Option PcmFormat
  negotiated_format p = b.actual_format p.backend

  unfoldable pub enumerate : CapturePipeline → b.Moment → AudioResult (List DeviceEntry)
  enumerate p m = b.enumerate_devices p.backend m

  -- The format asked for is kept also when the device is refused.
  unfoldable pub open_with_config :
      CapturePipeline → b.Moment → ℕ → DeviceConfig → CapturePipeline × AudioResult (Unit {0})
  open_with_config p m idx cfg =
      let opened = b.open_device p.backend m idx cfg.preferred_format in
      (record { backend = opened.0; requested_format = cfg.preferred_format }, opened.1)

  unfoldable pub open_basic :
      CapturePipeline → b.Moment → ℕ → CapturePipeline × AudioResult (Unit {0})
  open_basic p m idx = open_with_config p m idx (with_format p.requested_format)

  unfoldable pub start : CapturePipeline → b.Moment → CapturePipeline × AudioResult (Unit {0})
  start p m = let r = b.start p.backend m in (record p { backend = r.0 }, r.1)

  unfoldable pub stop : CapturePipeline → b.Moment → CapturePipeline × AudioResult (Unit {0})
  stop p m = let r = b.stop p.backend m in (record p { backend = r.0 }, r.1)

  unfoldable pub next_frame :
      CapturePipeline → b.Moment → CapturePipeline × AudioResult (Option PcmFrame)
  next_frame p m = let r = b.next_frame p.backend m in (record p { backend = r.0 }, r.1)
