-- ===== src/Ipc/Tasks.antt =====
-- The background tasks that `spawn_background_tasks` of crates/bsm-ipc/src/dispatcher.rs starts, a
-- round of their loops for each element of a list: which arm of the `select!` is ready, and with
-- what. A send into the PCM queue waits until there is room, as the task does.
pub mod Totals
pub mod Silence
use baxters_stereo_mix_lin.Base.{
  ℕ, ◌+◌, ◌%◌, ◌^◌, Bool, true, false, ◌||◌, Option, none, some, List, [], ◌∷◌, ◌++◌, leb,
}
use baxters_stereo_mix_lin.Base.Bits.{u64}
use baxters_stereo_mix_lin.Core.{PcmFormat, PcmFrame}
use baxters_stereo_mix_lin.Audio.Backend.{AudioBackend, AudioResult, ok, err}
use baxters_stereo_mix_lin.Audio.Pipeline
use baxters_stereo_mix_lin.Audio.Pipeline.{CapturePipeline, with_format}
use baxters_stereo_mix_lin.Ipc.Meter.{AudioQuality, measure}
use baxters_stereo_mix_lin.Session.Encoder.{EncoderStats}

-- The format that the dispatcher asks for.
abbrev pub cd_stereo : PcmFormat
cd_stereo = record { sample_rate = 48000; channels = 2; bit_depth = 16 }

unfoldable pub underrun : AudioQuality → AudioQuality
underrun aq = record aq { underrun_count = u64 (aq.underrun_count + 1) }

module _ (b : AudioBackend) where
  -- The shutdown arrives, or `next_frame` is done.
  pub data PipelineTurn : Type 0 where
    told : b.Moment → PipelineTurn
    frame_done : b.Moment → PipelineTurn

  pub record PipelineTask : Type 0 where
    pub pipeline : CapturePipeline b
    pub quality : AudioQuality
    pub sent : List PcmFrame

  -- A frame is metered, then sent on.
  unfoldable pub forward : PipelineTask → CapturePipeline b → PcmFrame → PipelineTask
  forward t p f = record { pipeline = p; quality = measure t.quality f; sent = t.sent ++ (f ∷ []) }

  unfoldable pub pipeline_loop : PipelineTask → List PipelineTurn → PipelineTask
  pipeline_loop t [] = t
  pipeline_loop t (told m ∷ rest) = record t { pipeline = (Pipeline.stop b t.pipeline m).0 }
  pipeline_loop t (frame_done m ∷ rest) =
      let got = Pipeline.next_frame b t.pipeline m in
      elim got.1 [
        | err e ↦ record t { pipeline = got.0; quality = underrun t.quality }
        | ok answer ↦ elim answer [
          | none ↦ record t { pipeline = got.0 }
          | some f ↦ pipeline_loop (forward t got.0 f) rest
        ]
      ]

  -- The task opens device 0 and starts it, whatever comes of that.
  unfoldable pub pipeline_task :
      b.Device → AudioQuality → b.Moment → b.Moment → List PipelineTurn → PipelineTask
  pipeline_task device quality opening starting turns =
      let opened =
        Pipeline.open_with_config b (Pipeline.new b device cd_stereo) opening 0
          (with_format cd_stereo) in
      let started = Pipeline.start b opened.0 starting in
      pipeline_loop (record { pipeline = started.0; quality = quality; sent = [] }) turns

-- The encoder task's loop: statistics, a packet, or the shutdown.
pub data EncoderTurn : Type 0 where
  stats_arrived : EncoderStats → EncoderTurn
  packet_arrived : EncoderTurn
  encoder_told : EncoderTurn

-- What it sends on as telemetry. The packets are read and dropped.
unfoldable pub encoder_loop : List EncoderStats → List EncoderTurn → List EncoderStats
encoder_loop emitted [] = emitted
encoder_loop emitted (stats_arrived s ∷ rest) = encoder_loop (emitted ++ (s ∷ [])) rest
encoder_loop emitted (packet_arrived ∷ rest) = encoder_loop emitted rest
encoder_loop emitted (encoder_told ∷ rest) = emitted

-- The audio statistics of every fifth second; the levels are numerators over 32767, and 0.99 of that
-- lies between 32439 and 32440. The approximate levels, 0.707 of the peaks, are left out.
pub record AudioStats : Type 0 where
  pub peak_left : ℕ
  pub peak_right : ℕ
  pub clipping : Bool
  pub queue_depth : ℕ

unfoldable pub stats_of_quality : AudioQuality → AudioStats
stats_of_quality q = record {
  peak_left = q.peak_left;
  peak_right = q.peak_right;
  clipping = leb 32440 q.peak_left || leb 32440 q.peak_right;
  queue_depth = 0;
}

-- A tick sees the quality as it then is.
pub data StatsTurn : Type 0 where
  tick : AudioQuality → StatsTurn
  stats_told : StatsTurn

unfoldable pub audio_stats_loop : List AudioStats → List StatsTurn → List AudioStats
audio_stats_loop emitted [] = emitted
audio_stats_loop emitted (tick q ∷ rest) =
    audio_stats_loop (emitted ++ (stats_of_quality q ∷ [])) rest
audio_stats_loop emitted (stats_told ∷ rest) = emitted
