-- ===== src/Ipc/Dispatcher.antt =====
-- The state and the command handler of `Dispatcher` in crates/bsm-ipc/src/dispatcher.rs. The
-- clock, the counter that the capture task keeps, and the texts of JSON are arguments or data.
pub mod States
pub mod Session
use baxters_stereo_mix_lin.Base.{
  ℕ, ◌+◌, ◌-◌, Bool, true, false, Option, none, some, List, [], ◌∷◌, ◌++◌,
}
use baxters_stereo_mix_lin.Ipc.Commands.{
  Json, IpcCommand, start_recording, stop_recording, pause_recording, resume_recording, get_status,
  subscribe_telemetry, set_device, update_config, shutdown, health, stats,
}
use baxters_stereo_mix_lin.Ipc.Meter.{AudioQuality, quiet}

pub data RecordingState : Type 0 where
  idle : RecordingState
  recording : Option ℕ → ℕ → RecordingState
  paused : Option ℕ → ℕ → RecordingState

-- `device-{i}` or `default-device`.
pub data DeviceName : Type 0 where
  device : ℕ → DeviceName
  default_device : DeviceName

pub data Event : Type 0 where
  audio_started : DeviceName → ℕ → ℕ → Event
  audio_stopped : ℕ → ℕ → Event
  error_occurred : Event

-- A session's background tasks: those still running, and whether its channel carries the shutdown.
pub record Tasks : Type 0 where
  pub active : ℕ
  pub told_to_stop : Bool

-- `rt`, and the fields that `spawn_background_tasks` sets together, as one option. `events` is the
-- telemetry sent so far.
pub record Dispatcher : Type 0 where
  pub state : RecordingState
  pub events : List Event
  pub runtime : Bool
  pub tasks : Option Tasks
  pub start_time : ℕ
  pub quality : AudioQuality
  pub frames_at_start : ℕ

unfoldable pub new : ℕ → Dispatcher
new now = record {
  state = idle;
  events = [];
  runtime = false;
  tasks = none;
  start_time = now;
  quality = quiet;
  frames_at_start = 0;
}

unfoldable pub frames_captured : Dispatcher → ℕ
frames_captured d = d.quality.samples_captured

-- Pipeline, encoder and audio statistics.
unfoldable pub spawn_background_tasks : Dispatcher → Dispatcher
spawn_background_tasks d = record d {
  runtime = true;
  tasks = some (record { active = 3; told_to_stop = false });
}

-- `if let Some(tx) = &self.shutdown_tx { let _ = tx.send(()); }`
unfoldable pub signal_shutdown : Dispatcher → Dispatcher
signal_shutdown d = record d {
  tasks = elim d.tasks [ none ↦ none | some t ↦ some (record t { told_to_stop = true }) ];
}

unfoldable pub emit : Dispatcher → Event → Dispatcher
emit d e = record d { events = d.events ++ (e ∷ []) }

pub data StateName : Type 0 where
  idle_name : StateName
  recording_name : StateName
  paused_name : StateName

unfoldable pub state_name : RecordingState → StateName
state_name idle = idle_name
state_name (recording i t) = recording_name
state_name (paused i t) = paused_name

-- `matches!(&self.state, RecordingState::Recording { .. })`
unfoldable pub is_recording : RecordingState → Bool
is_recording idle = false
is_recording (recording i t) = true
is_recording (paused i t) = false

pub data Refusal : Type 0 where
  not_recording : Refusal
  not_paused : Refusal
  unsupported_command : Refusal

-- A `ResponseEnvelope` but for its id, with the data of each command.
pub data Response : Type 0 where
  ok : Response
  err : Refusal → Response
  ok_status : RecordingState → Response
  ok_health : ℕ → Bool → StateName → Response
  ok_stats : AudioQuality → Response

unfoldable pub device_name : Option ℕ → DeviceName
device_name none = default_device
device_name (some i) = device i

-- Duration and frames of the recording that ends.
unfoldable pub recorded : Dispatcher → ℕ → ℕ × ℕ
recorded d now = elim d.state [
  | idle ↦ (0, 0)
  | recording i started_at ↦ (now - started_at, frames_captured d - d.frames_at_start)
  | paused i started_at ↦ (now - started_at, frames_captured d - d.frames_at_start)
]

-- The arms of `handle_command` that change the state.
unfoldable pub start : Dispatcher → ℕ → Option ℕ → Dispatcher
start d now index =
    let d' : Dispatcher =
      spawn_background_tasks (record d { frames_at_start = frames_captured d }) in
    emit (record d' { state = recording index now }) (audio_started (device_name index) 48000 2)

unfoldable pub stop : Dispatcher → ℕ → Dispatcher
stop d now =
    let total = recorded d now in
    emit (record (signal_shutdown d) { state = idle }) (audio_stopped total.0 total.1)

unfoldable pub pause : Dispatcher → Dispatcher × Response
pause d = elim d.state [
  | recording i started_at ↦ (record d { state = paused i started_at }, ok)
  | _ ↦ (d, err not_recording)
]

unfoldable pub resume : Dispatcher → Dispatcher × Response
resume d = elim d.state [
  | paused i started_at ↦ (record d { state = recording i started_at }, ok)
  | _ ↦ (d, err not_paused)
]

unfoldable pub handle_command : (j : Json) → Dispatcher → ℕ → IpcCommand j → Dispatcher × Response
handle_command j d now (start_recording index) = (start d now index, ok)
handle_command j d now stop_recording = (stop d now, ok)
handle_command j d now pause_recording = pause d
handle_command j d now resume_recording = resume d
handle_command j d now get_status = (d, ok_status d.state)
handle_command j d now (set_device index) = (d, ok)
handle_command j d now (update_config v) = (d, ok)
handle_command j d now shutdown = (emit (signal_shutdown d) error_occurred, ok)
handle_command j d now health =
    (d, ok_health (now - d.start_time) (is_recording d.state) (state_name d.state))
handle_command j d now stats = (d, ok_stats d.quality)
handle_command j d now subscribe_telemetry = (d, err unsupported_command)
