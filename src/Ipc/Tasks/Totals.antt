-- ===== src/Ipc/Tasks/Totals.antt =====
-- The count of a session: what the pipeline task of crates/bsm-ipc/src/dispatcher.rs sends on, and
-- what the stop event says of it.
use baxters_stereo_mix_lin.Base.{
  ℕ, ◌+◌, ◌-◌, ◌^◌, ◌<◌, ◌≡◌, ap, ◌∙◌, ◌&&◌, Option, none, some, List, [], ◌∷◌, ◌++◌, length, leb,
  ◌==◌, if◌then◌else◌, arith, Bool-cases, inl, inr,
}
use baxters_stereo_mix_lin.Base.Bits.{u64}
use baxters_stereo_mix_lin.Core.{PcmFrame}
use baxters_stereo_mix_lin.Audio.Backend.{AudioBackend, AudioResult, ok, err}
use baxters_stereo_mix_lin.Audio.Pipeline
use baxters_stereo_mix_lin.Audio.Pipeline.{CapturePipeline}
use baxters_stereo_mix_lin.Ipc.Meter.{AudioQuality, measure}
use baxters_stereo_mix_lin.Ipc.Tasks.{
  PipelineTurn, told, frame_done, PipelineTask, forward, underrun, pipeline_loop, pipeline_task,
}
use baxters_stereo_mix_lin.Ipc.Dispatcher.{
  Dispatcher, audio_stopped, start, stop, emit, recorded, frames_captured, spawn_background_tasks,
  signal_shutdown,
}

-- The frames of a list that the meter counts: those of 16-bit samples that hold one.
unfoldable pub total : List PcmFrame → ℕ
total [] = 0
total (f ∷ rest) =
    (if (f.format.bit_depth == 16) && leb 2 (length f.payload) then f.frame_count else 0)
    + total rest

pub total-append : (xs ys : List PcmFrame) → total (xs ++ ys) ≡ total xs + total ys
unfolding total
total-append [] ys = omega arith
total-append (x ∷ xs) ys = omega (arith, total-append xs ys)

measure-total :
    (q : AudioQuality) (f : PcmFrame) (x : ℕ)
    → q.samples_captured ≡ u64 x
    → (measure q f).samples_captured ≡ u64 (x + total (f ∷ []))
unfolding measure total
measure-total q f x h = elim (Bool-cases ((f.format.bit_depth == 16) && leb 2 (length f.payload))) [
  | inl metered ↦ rw (measure, total, metered) (omega (arith, h))
  | inr other ↦ elim (Bool-cases (length f.payload == 0)) [
    | inl nothing ↦ rw (measure, total, other, nothing) (omega (arith, h))
    | inr odd ↦ rw (measure, total, other, odd) (omega (arith, h))
  ]
]

module _ (b : AudioBackend) (before : ℕ) where
  -- The count of the meter against the frames sent on.
  unfoldable Counted : PipelineTask b → Type 0
  Counted t = t.quality.samples_captured ≡ u64 (before + total t.sent)

  forward-Counted :
      (t : PipelineTask b) (p : CapturePipeline b) (f : PcmFrame)
      → Counted t
      → Counted (forward b t p f)
  unfolding Counted forward
  forward-Counted t p f h =
      measure-total t.quality f (before + total t.sent) h
      ∙ ap u64 (omega (arith, total-append t.sent (f ∷ [])))

  turn-Counted :
      (rest : List (PipelineTurn b)) (t : PipelineTask b)
      → ((t' : PipelineTask b) → Counted t' → Counted (pipeline_loop b t' rest))
      → Counted t
      → (p : CapturePipeline b) (answer : AudioResult (Option PcmFrame))
      → Counted (elim answer [
        | err e ↦ record t { pipeline = p; quality = underrun t.quality }
        | ok got ↦ elim got [
          | none ↦ record t { pipeline = p }
          | some f ↦ pipeline_loop b (forward b t p f) rest
        ]
      ])
  unfolding Counted underrun
  turn-Counted rest t later h p (err e) = h
  turn-Counted rest t later h p (ok none) = h
  turn-Counted rest t later h p (ok (some f)) = later (forward b t p f) (forward-Counted t p f h)

  pipeline_loop-Counted :
      (turns : List (PipelineTurn b)) (t : PipelineTask b)
      → Counted t
      → Counted (pipeline_loop b t turns)
  unfolding pipeline_loop Counted
  pipeline_loop-Counted [] t h = h
  pipeline_loop-Counted (told m ∷ rest) t h = h
  pipeline_loop-Counted (frame_done m ∷ rest) t h =
      turn-Counted rest t (pipeline_loop-Counted rest) h (Pipeline.next_frame b t.pipeline m).0
        (Pipeline.next_frame b t.pipeline m).1

pipeline_task-Counted :
    (b : AudioBackend) (device : b.Device) (q : AudioQuality) (opening starting : b.Moment)
    (turns : List (PipelineTurn b))
    → q.samples_captured < 2 ^ 64
    → (pipeline_task b device q opening starting turns).quality.samples_captured
      ≡ u64 (q.samples_captured + total (pipeline_task b device q opening starting turns).sent)
unfolding pipeline_task Counted total
pipeline_task-Counted b device q opening starting turns small =
    pipeline_loop-Counted b q.samples_captured turns _ (omega (arith, small))

-- From a start at `t0` to a stop at `t1` with a pipeline task between them, over any backend and any
-- rounds: the stop event carries the time between, and the frames of all 16-bit frames that the
-- task sent on, as long as the count of the frames fits 64 bits.
pub pipeline_task-totals :
    (b : AudioBackend) (d : Dispatcher) (t0 t1 : ℕ) (index : Option ℕ) (device : b.Device)
    (opening starting : b.Moment) (turns : List (PipelineTurn b))
    → let task = pipeline_task b device (start d t0 index).quality opening starting turns in
      d.quality.samples_captured + total task.sent < 2 ^ 64
      → (stop (record (start d t0 index) { quality = task.quality }) t1).events
        ≡ (start d t0 index).events ++ (audio_stopped (t1 - t0) (total task.sent) ∷ [])
unfolding start stop emit recorded frames_captured spawn_background_tasks signal_shutdown
pipeline_task-totals b d t0 t1 index device opening starting turns fits =
    ap (λ (n : ℕ). (start d t0 index).events ++ (audio_stopped (t1 - t0) n ∷ [])) gained
  where
    task : PipelineTask b
    task = pipeline_task b device (start d t0 index).quality opening starting turns

    counted : task.quality.samples_captured ≡ u64 (d.quality.samples_captured + total task.sent)
    counted = pipeline_task-Counted b device d.quality opening starting turns (omega (arith, fits))

    gained : task.quality.samples_captured - d.quality.samples_captured ≡ total task.sent
    gained = omega (arith, counted, fits)
