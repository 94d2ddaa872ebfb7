-- ===== src/Examples/Control.antt =====
-- Theorems of capture, sessions and control at concrete inputs.
use baxters_stereo_mix_lin.Base.{
  ◌+◌, length, ℕ, ◌≡◌, ◌≢◌, ◌-◌, ◌≤◌, ◌⊎◌, refl, Bool, true, false, Option, none, some, List, [],
  ◌∷◌, ◌++◌, arith, All, leb,
}
use baxters_stereo_mix_lin.Base.Int.{ℤ, pos, negsuc, sub_ℕ}
use baxters_stereo_mix_lin.Core.{PcmFormat, PcmFrame}
use baxters_stereo_mix_lin.Audio.Channels.{as_i16}
use baxters_stereo_mix_lin.Audio.Channels.Mapping.{as_i16-off_centre}
use baxters_stereo_mix_lin.Muxer.Bitrate.{nearest_bitrate, distance, rates, nearest_bitrate-nearest}
use baxters_stereo_mix_lin.Session.Paths.{resolve_output_path, Resolved, resolve_output_path-Found}
use baxters_stereo_mix_lin.Session.Encoder.{Turn, fresh, encode_loop}
use baxters_stereo_mix_lin.Session.Encoder.Stats.{taken, Carried, encode_loop-Carried}
use baxters_stereo_mix_lin.Ipc.Commands.{
  Json, IpcCommand, start_recording, pause_recording, resume_recording, shutdown, health,
}
use baxters_stereo_mix_lin.Ipc.Dispatcher.{
  Dispatcher, new, start, stop, emit, spawn_background_tasks, recording, recording_name, ok_health,
  audio_stopped, handle_command,
}
use baxters_stereo_mix_lin.Ipc.Dispatcher.States.{
  run, HasSession, new-HasSession, Told, shutdown-keeps_state,
}
use baxters_stereo_mix_lin.Ipc.Dispatcher.Session.{is_calm, captured, session-totals}
use baxters_stereo_mix_lin.Ipc.Meter.{peaks, quiet}
use baxters_stereo_mix_lin.Ipc.Meter.Peaks.{loudest, peaks-loudest}
use baxters_stereo_mix_lin.Ipc.Shutdown.{
  World, Step, Steps, here, then_step, fetch_sub, notify, all_done, checking, left, count_out,
  notify_waiters,
}
use baxters_stereo_mix_lin.Ipc.Shutdown.Wakeup.{
  begun as waiting_for, completed_sound, timed-progress,
}
use baxters_stereo_mix_lin.Audio.Negotiation.{DeviceConfig, f32, i16}
use baxters_stereo_mix_lin.Agent.{
  Entry, StartRequest, handle_start, per_origin, full, insert, remove, has_key,
}
use baxters_stereo_mix_lin.Agent.Race.{
  Table, first, admit, register, Steps as Starts, here, then_step, no_sessions, Steps-IsBounded,
}
use baxters_stereo_mix_lin.Agent.Race.Overrun.{fresh as all_new, overrun}
use baxters_stereo_mix_lin.Agent.Limits.{WithinLimits, handle_start-WithinLimits}

abbrev mono : List ℤ
mono = pos 1000 ∷ negsuc 999 ∷ []

as_i16-off_centre_example : as_i16 32768 ≢ sub_ℕ 32768 32768
as_i16-off_centre_example = as_i16-off_centre 32768 (omega arith)

nearest_bitrate-nearest_example :
    All (λ r. distance 130 (nearest_bitrate 130) ≤ distance 130 r) rates
nearest_bitrate-nearest_example = nearest_bitrate-nearest 130

abbrev two_there : ℕ → Bool
two_there n = leb n 2

resolve_output_path-Found_example :
    Resolved (λ n. n) two_there true (resolve_output_path (λ n. n) two_there true)
resolve_output_path-Found_example = resolve_output_path-Found (λ n. n) two_there true

abbrev a_frame : PcmFrame
a_frame = record {
  payload = 1 ∷ 2 ∷ 3 ∷ 4 ∷ [];
  format = record { sample_rate = 48000; channels = 2; bit_depth = 16 };
  timestamp_us = 20;
  sequence = 0;
  frame_count = 1;
}

abbrev a_turn : Turn
a_turn = record {
  shutdown = false;
  frame = some a_frame;
  receiver = true;
  elapsed_us = 12;
  second_over = true;
  queue = 0;
}

encode_loop-Carried_example :
    Carried (taken (a_turn ∷ a_turn ∷ [])) (encode_loop fresh (a_turn ∷ a_turn ∷ [])).packets
encode_loop-Carried_example = encode_loop-Carried (a_turn ∷ a_turn ∷ [])

-- JSON of which only a device index matters.
abbrev indices : Json
indices = record { Value = Option ℕ; get_u64 = λ v key. v; from_str = λ raw. none }

abbrev begun : Dispatcher
begun = start (new 0) 1000 (some 0)

abbrev commands : List (ℕ × IpcCommand indices)
commands = (1000, start_recording (some 0)) ∷ (1500, pause_recording) ∷ (1600, shutdown) ∷ []

new-HasSession_example : HasSession (run indices (new 0) commands)
new-HasSession_example = new-HasSession indices 0 commands

abbrev one_start : List (ℕ × IpcCommand indices)
one_start = (1000, start_recording (some 0)) ∷ []

shutdown-keeps_state_example :
    let after = (handle_command indices (run indices (new 0) one_start) 2000 shutdown).0 in
    Told after.tasks
    × (after.state ≡ recording (some 0) 1000)
    × ((handle_command indices after 2500 health).1
        ≡ ok_health (2500 - after.start_time) true recording_name)
unfolding run handle_command start emit spawn_background_tasks
shutdown-keeps_state_example = shutdown-keeps_state indices 0 one_start (some 0) 1000 2000 2500 refl

abbrev calm : List (ℕ × IpcCommand indices)
calm = (1500, pause_recording) ∷ (1700, resume_recording) ∷ []

calm-all : All (λ (c : ℕ × IpcCommand indices). is_calm c.1 ≡ true) calm
unfolding is_calm
calm-all = (refl, (refl, tt))

session-totals_example :
    (stop (captured 480 (run indices (start (new 0) 1000 (some 0)) calm)) 3000).events
    ≡ (start (new 0) 1000 (some 0)).events ++ (audio_stopped (3000 - 1000) 480 ∷ [])
unfolding new quiet
session-totals_example =
    session-totals indices (new 0) 1000 3000 480 (some 0) calm calm-all (omega arith)

peaks-loudest_example :
    peaks 2 0 (pos 5 ∷ negsuc 9 ∷ pos 3 ∷ []) (0, 0)
    ≡ (loudest 2 0 0 (pos 5 ∷ negsuc 9 ∷ pos 3 ∷ []), loudest 2 1 0 (pos 5 ∷ negsuc 9 ∷ pos 3 ∷ []))
peaks-loudest_example = peaks-loudest 2 (pos 5 ∷ negsuc 9 ∷ pos 3 ∷ [])

abbrev ended : World
ended = record { active = 0; notifying = false; phase = left true }

one_task : Steps false (waiting_for 1) ended
unfolding count_out notify_waiters
one_task =
    then_step (then_step (then_step (here _) (fetch_sub 0 false checking)) (notify 0 checking))
      (all_done false)

completed_sound_example : ended.active ≡ 0
completed_sound_example = completed_sound false 1 ended one_task refl

timed-progress_example :
    ((b : Bool) × (checking ≡ left b)) ⊎ ((v : World) × Step true (waiting_for 1) v)
timed-progress_example = timed-progress (waiting_for 1)

abbrev cd : PcmFormat
cd = record { sample_rate = 44100; channels = 2; bit_depth = 16 }

abbrev studio : DeviceConfig
studio = record { sample_format = f32; channels = 2; min_sr = 48000; max_sr = 96000 }

abbrev plain : DeviceConfig
plain = record { sample_format = i16; channels = 2; min_sr = 8000; max_sr = 48000 }

abbrev request : StartRequest
request = record {
  token = none;
  filename_template = 0x42 ∷ [];
  format = some "flac";
  is_absolute = false;
  has_parent = false;
}

abbrev one_session : List Entry
one_session = record { id = "session-1"; origin = "10.0.0.1" } ∷ []

one_within : WithinLimits "10.0.0.1" one_session
unfolding per_origin
one_within = (omega arith, omega arith)

handle_start-WithinLimits_example :
    WithinLimits "10.0.0.1"
      (handle_start none true true "10.0.0.1" "session-2" request one_session).0
handle_start-WithinLimits_example =
    handle_start-WithinLimits none true true "10.0.0.1" "session-2" request one_session one_within

abbrev a_session : Entry
a_session = record { id = "session-1"; origin = "10.0.0.1" }

abbrev one_running : Table
one_running = record { map = a_session ∷ []; starting = [] }

a_start : Starts 2 no_sessions one_running
unfolding full per_origin insert remove
a_start =
    then_step (then_step (here no_sessions) (admit a_session [] [] refl (omega arith)))
      (register a_session [] (a_session ∷ []) [] (first a_session []))

Steps-IsBounded_example :
    (length one_running.map ≤ 63 + 2) × (per_origin "10.0.0.1" one_running.map ≤ 3 + 2)
Steps-IsBounded_example = Steps-IsBounded 2 one_running "10.0.0.1" a_start

-- Five starts of one origin.
abbrev five_starts : List Entry
five_starts =
    record { id = "session-1"; origin = "10.0.0.1" }
    ∷ record { id = "session-2"; origin = "10.0.0.1" }
    ∷ record { id = "session-3"; origin = "10.0.0.1" }
    ∷ record { id = "session-4"; origin = "10.0.0.1" }
    ∷ record { id = "session-5"; origin = "10.0.0.1" }
    ∷ []

five_fresh : all_new five_starts [] ≡ true
unfolding all_new has_key insert remove
five_fresh = refl

overrun_example :
    (t : Table) × Starts 5 no_sessions t
    × (length t.map ≡ length five_starts)
    × (per_origin "10.0.0.1" t.map ≡ per_origin "10.0.0.1" five_starts)
overrun_example = overrun 5 "10.0.0.1" five_starts (omega arith) five_fresh
