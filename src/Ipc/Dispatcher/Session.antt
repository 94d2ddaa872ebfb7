-- ===== src/Ipc/Dispatcher/Session.antt =====
-- A recording from its start to its stop.
use baxters_stereo_mix_lin.Base.{
  ℕ, ◌+◌, ◌-◌, ◌^◌, ◌<◌, ◌≡◌, refl, sym, ap, ◌⊎◌, inl, inr, Bool, true, false, Option, List, [],
  ◌∷◌, ◌++◌, All, arith,
}
use baxters_stereo_mix_lin.Base.Bits.{u64}
use baxters_stereo_mix_lin.Ipc.Commands.{
  Json, IpcCommand, start_recording, stop_recording, pause_recording, resume_recording, get_status,
  subscribe_telemetry, set_device, update_config, shutdown, health, stats,
}
use baxters_stereo_mix_lin.Ipc.Dispatcher.{
  RecordingState, recording, paused, audio_stopped, Dispatcher, frames_captured,
  spawn_background_tasks, signal_shutdown, emit, start, stop, pause, resume, handle_command,
  recorded,
}
use baxters_stereo_mix_lin.Ipc.Dispatcher.States.{run}
use baxters_stereo_mix_lin.Ipc.Meter.{AudioQuality}
use mathlib.Core.Bool.{true≢false}

-- Every command but those that start or stop a recording, or shut down.
unfoldable pub is_calm : {j : Json} → IpcCommand j → Bool
is_calm (start_recording i) = false
is_calm stop_recording = false
is_calm shutdown = false
is_calm c = true

-- The state of a recording that began at `t` on device `i`.
abbrev pub Began : Option ℕ → ℕ → RecordingState → Type 0
Began i t s = (s ≡ recording i t) ⊎ (s ≡ paused i t)

-- What a recording is measured against does not change while it lasts.
pub record IsUnderWay (d d' : Dispatcher) (i : Option ℕ) (t : ℕ) : Type 0 where
  pub began : Began i t d'.state
  pub same_events : d'.events ≡ d.events
  pub same_start : d'.frames_at_start ≡ d.frames_at_start
  pub same_quality : d'.quality ≡ d.quality

pause-IsUnderWay :
    (d d' : Dispatcher) (i : Option ℕ) (t : ℕ) → IsUnderWay d d' i t → IsUnderWay d (pause d').0 i t
unfolding pause
pause-IsUnderWay d d' i t u = elim u.began [
  | inl on ↦
      rw (pause, on)
        (record {
          began = inr refl;
          same_events = u.same_events;
          same_start = u.same_start;
          same_quality = u.same_quality;
        })
  | inr off ↦ rw (pause, off) (record u { began = inr off })
]

resume-IsUnderWay :
    (d d' : Dispatcher) (i : Option ℕ) (t : ℕ)
    → IsUnderWay d d' i t
    → IsUnderWay d (resume d').0 i t
unfolding resume
resume-IsUnderWay d d' i t u = elim u.began [
  | inl on ↦ rw (resume, on) (record u { began = inl on })
  | inr off ↦
      rw (resume, off)
        (record {
          began = inl refl;
          same_events = u.same_events;
          same_start = u.same_start;
          same_quality = u.same_quality;
        })
]

handle-IsUnderWay :
    (j : Json) (d d' : Dispatcher) (i : Option ℕ) (t now : ℕ) (c : IpcCommand j)
    → is_calm c ≡ true
    → IsUnderWay d d' i t
    → IsUnderWay d (handle_command j d' now c).0 i t
unfolding handle_command is_calm
handle-IsUnderWay j d d' i t now (start_recording k) calm u = absurd (true≢false (sym calm))
handle-IsUnderWay j d d' i t now stop_recording calm u = absurd (true≢false (sym calm))
handle-IsUnderWay j d d' i t now pause_recording calm u = pause-IsUnderWay d d' i t u
handle-IsUnderWay j d d' i t now resume_recording calm u = resume-IsUnderWay d d' i t u
handle-IsUnderWay j d d' i t now get_status calm u = u
handle-IsUnderWay j d d' i t now subscribe_telemetry calm u = u
handle-IsUnderWay j d d' i t now (set_device k) calm u = u
handle-IsUnderWay j d d' i t now (update_config v) calm u = u
handle-IsUnderWay j d d' i t now shutdown calm u = absurd (true≢false (sym calm))
handle-IsUnderWay j d d' i t now health calm u = u
handle-IsUnderWay j d d' i t now stats calm u = u

run-IsUnderWay :
    (j : Json) (d d' : Dispatcher) (i : Option ℕ) (t : ℕ) (cs : List (ℕ × IpcCommand j))
    → All (λ c. is_calm c.1 ≡ true) cs
    → IsUnderWay d d' i t
    → IsUnderWay d (run j d' cs) i t
unfolding run
run-IsUnderWay j d d' i t [] calm u = u
run-IsUnderWay j d d' i t ((now, c) ∷ rest) calm u =
    run-IsUnderWay j d (handle_command j d' now c).0 i t rest calm.1
      (handle-IsUnderWay j d d' i t now c calm.0 u)

-- `n` samples more in the meter.
unfoldable pub captured : ℕ → Dispatcher → Dispatcher
captured n d = record d {
  quality = record d.quality { samples_captured = u64 (d.quality.samples_captured + n) };
}

stop-events :
    (d d' : Dispatcher) (i : Option ℕ) (t later n : ℕ)
    → IsUnderWay d d' i t
    → d.frames_at_start ≡ d.quality.samples_captured
    → d.quality.samples_captured + n < 2 ^ 64
    → (stop (captured n d') later).events ≡ d.events ++ (audio_stopped (later - t) n ∷ [])
unfolding stop emit recorded frames_captured captured signal_shutdown
stop-events d d' i t later n u e fits = elim u.began [
  | inl on ↦ rw (recorded, on, u.same_events, frames) refl
  | inr off ↦ rw (recorded, off, u.same_events, frames) refl
]
  where
    frames : u64 (d'.quality.samples_captured + n) - d'.frames_at_start ≡ n
    frames =
        omega (
          arith,
          u.same_start,
          ap (λ (q : AudioQuality). q.samples_captured) u.same_quality,
          e,
          fits,
        )

-- From a start to a stop, with any pauses, resumptions and queries between, the stop reports the
-- time since the start and the samples captured since, where all samples so far are counted in 64
-- bits.
pub session-totals :
    (j : Json) (d : Dispatcher) (now later n : ℕ) (i : Option ℕ) (cs : List (ℕ × IpcCommand j))
    → All (λ c. is_calm c.1 ≡ true) cs
    → d.quality.samples_captured + n < 2 ^ 64
    → (stop (captured n (run j (start d now i) cs)) later).events
      ≡ (start d now i).events ++ (audio_stopped (later - now) n ∷ [])
session-totals j d now later n i cs calm fits =
    stop-events s (run j s cs) i now later n (run-IsUnderWay j s s i now cs calm fresh) begun
      counted
  where
    s : Dispatcher
    s = start d now i

    fresh : IsUnderWay s s i now
    fresh = record {
      began = unfold start emit in inl refl;
      same_events = refl;
      same_start = refl;
      same_quality = refl;
    }

    begun : s.frames_at_start ≡ s.quality.samples_captured
    begun = unfold start emit spawn_background_tasks frames_captured in refl

    counted : s.quality.samples_captured + n < 2 ^ 64
    counted = unfold start emit spawn_background_tasks in fits
