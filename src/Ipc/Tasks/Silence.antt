-- ===== src/Ipc/Tasks/Silence.antt =====
-- A recording from the null backend: crates/bsm-ipc/src/dispatcher.rs over
-- crates/bsm-audio/src/null.rs.
use baxters_stereo_mix_lin.Base.{
  ℕ, ◌+◌, ◌-◌, ◌*◌, ◌^◌, ◌<◌, ◌≡◌, refl, ap, ◌∙◌, true, Option, some, List, [], ◌∷◌, ◌++◌, length,
  arith,
}
use baxters_stereo_mix_lin.Base.Bits.{u64}
use baxters_stereo_mix_lin.Core.{bytes_per_sample, bytes_per_frame}
use baxters_stereo_mix_lin.Audio.Null
use baxters_stereo_mix_lin.Audio.Null.{NullBackend, null_backend, format_or_default, silence}
use baxters_stereo_mix_lin.Audio.Pipeline
use baxters_stereo_mix_lin.Audio.Pipeline.{CapturePipeline, with_format}
use baxters_stereo_mix_lin.Ipc.Meter.{AudioQuality}
use baxters_stereo_mix_lin.Ipc.Tasks.{
  cd_stereo, PipelineTurn, frame_done, PipelineTask, forward, pipeline_loop, pipeline_task,
}
use baxters_stereo_mix_lin.Ipc.Tasks.Totals.{total, total-append, pipeline_task-totals}
use baxters_stereo_mix_lin.Ipc.Dispatcher.{Dispatcher, audio_stopped, start, stop}

-- A round for each time: the backend's frame is there.
unfoldable pub ticks : List ℕ → List (PipelineTurn null_backend)
ticks [] = []
ticks (now ∷ rest) = frame_done now ∷ ticks rest

-- The null backend at work in the format of the dispatcher.
abbrev at_work : ℕ → ℕ → NullBackend
at_work starting sequence = record {
  active = true;
  format = some cd_stereo;
  started_at = some starting;
  sequence = sequence;
}

total-silence :
    (starting sequence now : ℕ) → total (silence (at_work starting sequence) now ∷ []) ≡ 480
unfolding total silence format_or_default bytes_per_frame bytes_per_sample
total-silence starting sequence now = refl

pipeline_loop-silence :
    (starting sequence : ℕ) (times : List ℕ) (t : PipelineTask null_backend)
    → t.pipeline.backend ≡ at_work starting sequence
    → total (pipeline_loop null_backend t (ticks times)).sent ≡ total t.sent + 480 * length times
unfolding pipeline_loop ticks forward Pipeline.next_frame Null.next_frame
pipeline_loop-silence starting sequence [] t e = omega arith
pipeline_loop-silence starting sequence (now ∷ rest) t e =
    rw (pipeline_loop, Pipeline.next_frame, e)
      (pipeline_loop-silence starting (u64 (sequence + 1)) rest next goes_on
        ∙ omega (arith, total-append t.sent (silence t.pipeline.backend now ∷ []), one))
  where
    next : PipelineTask null_backend
    next =
        forward null_backend t
          (record t.pipeline { backend = (Null.next_frame t.pipeline.backend now).0 })
          (silence t.pipeline.backend now)

    goes_on : next.pipeline.backend ≡ at_work starting (u64 (sequence + 1))
    goes_on = ap (λ (d : NullBackend). (Null.next_frame d now).0) e

    one : total (silence t.pipeline.backend now ∷ []) ≡ 480
    one = rw e (total-silence starting sequence now)

pub total-null :
    (q : AudioQuality) (opening starting : ℕ) (times : List ℕ)
    → total (pipeline_task null_backend Null.new q opening starting (ticks times)).sent
      ≡ 480 * length times
unfolding pipeline_task total Pipeline.new Pipeline.open_with_config Pipeline.start with_format
    Null.open_device Null.start Null.new
total-null q opening starting times = pipeline_loop-silence starting 0 times _ refl ∙ omega arith

-- From a start at `t0` to a stop at `t1`, with the null backend called once for each of some times:
-- the stop event carries the time between, and 480 frames for each call, as long as the count of
-- frames fits 64 bits.
pub null-totals :
    (d : Dispatcher) (t0 t1 : ℕ) (index : Option ℕ) (opening starting : ℕ) (times : List ℕ)
    → d.quality.samples_captured + 480 * length times < 2 ^ 64
    → let task =
        pipeline_task null_backend Null.new
          (start d t0 index).quality
          opening
          starting
          (ticks times) in
      (stop (record (start d t0 index) { quality = task.quality }) t1).events
      ≡ (start d t0 index).events ++ (audio_stopped (t1 - t0) (480 * length times) ∷ [])
null-totals d t0 t1 index opening starting times fits =
    let count = total-null (start d t0 index).quality opening starting times in
    let totals =
      pipeline_task-totals null_backend d t0 t1 index Null.new opening starting (ticks times)
        (omega (arith, count, fits)) in
    rw count at totals
