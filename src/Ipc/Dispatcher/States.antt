-- ===== src/Ipc/Dispatcher/States.antt =====
-- Which states the command handler goes through.
use baxters_stereo_mix_lin.Base.{
  ℕ, ◌-◌, ◌≡◌, refl, sym, ap, Bool, true, false, Option, none, some, List, [], ◌∷◌,
}
use baxters_stereo_mix_lin.Ipc.Commands.{
  Json, IpcCommand, start_recording, stop_recording, pause_recording, resume_recording, get_status,
  subscribe_telemetry, set_device, update_config, shutdown, health, stats,
}
use baxters_stereo_mix_lin.Ipc.Dispatcher.{
  RecordingState, idle, recording, paused, Tasks, Dispatcher, new, spawn_background_tasks, Response,
  ok, err, ok_health, not_recording, not_paused, is_recording, state_name, recording_name,
  signal_shutdown, emit, start, stop, pause, resume, handle_command,
}
use mathlib.Core.Bool.{true≢false}

-- The commands that only ask, or are stubs.
unfoldable pub asks : {j : Json} → IpcCommand j → Bool
asks get_status = true
asks subscribe_telemetry = true
asks (set_device i) = true
asks (update_config v) = true
asks health = true
asks stats = true
asks (start_recording i) = false
asks stop_recording = false
asks pause_recording = false
asks resume_recording = false
asks shutdown = false

-- What a command at a time does to the state, with its response: a start begins a recording now; a
-- stop makes it idle; a pause and a resume keep the device and the time of the start, and are refused
-- from the states that they do not fit; every other command leaves the state.
pub data Edge (j : Json) (now : ℕ)
    : IpcCommand j → RecordingState → RecordingState → Response → Type 0 where
  begin :
      (i : Option ℕ) (s : RecordingState) → Edge j now (start_recording i) s (recording i now) ok
  halt : (s : RecordingState) → Edge j now stop_recording s idle ok
  suspend : (i : Option ℕ) (t : ℕ) → Edge j now pause_recording (recording i t) (paused i t) ok
  no_suspend : Edge j now pause_recording idle idle (err not_recording)
  suspended :
      (i : Option ℕ) (t : ℕ)
      → Edge j now pause_recording (paused i t) (paused i t) (err not_recording)
  continue : (i : Option ℕ) (t : ℕ) → Edge j now resume_recording (paused i t) (recording i t) ok
  no_continue : Edge j now resume_recording idle idle (err not_paused)
  continued :
      (i : Option ℕ) (t : ℕ)
      → Edge j now resume_recording (recording i t) (recording i t) (err not_paused)
  close : (s : RecordingState) → Edge j now shutdown s s ok
  ask : (c : IpcCommand j) (s : RecordingState) (r : Response) → asks c ≡ true → Edge j now c s s r

-- Commands one after another, each at its time.
unfoldable pub run : (j : Json) → Dispatcher → List (ℕ × IpcCommand j) → Dispatcher
run j d [] = d
run j d ((now, c) ∷ rest) = run j (handle_command j d now c).0 rest

-- While something is recorded or paused, the session's channels are there.
unfoldable pub covered : RecordingState → Option Tasks → Bool
covered idle t = true
covered (recording i s) none = false
covered (recording i s) (some t) = true
covered (paused i s) none = false
covered (paused i s) (some t) = true

abbrev pub HasSession : Dispatcher → Type 0
HasSession d = covered d.state d.tasks ≡ true

pause-covered :
    (d : Dispatcher) (s : RecordingState) (t : Option Tasks)
    → covered s t ≡ true
    → HasSession (pause (record d { state = s; tasks = t })).0
unfolding pause covered
pause-covered d idle t h = refl
pause-covered d (recording i s) none h = h
pause-covered d (recording i s) (some t) h = refl
pause-covered d (paused i s) none h = h
pause-covered d (paused i s) (some t) h = refl

resume-covered :
    (d : Dispatcher) (s : RecordingState) (t : Option Tasks)
    → covered s t ≡ true
    → HasSession (resume (record d { state = s; tasks = t })).0
unfolding resume covered
resume-covered d idle t h = refl
resume-covered d (recording i s) none h = h
resume-covered d (recording i s) (some t) h = refl
resume-covered d (paused i s) none h = h
resume-covered d (paused i s) (some t) h = refl

signal-covered :
    (d : Dispatcher) (s : RecordingState) (t : Option Tasks)
    → covered s t ≡ true
    → HasSession (signal_shutdown (record d { state = s; tasks = t }))
unfolding signal_shutdown covered
signal-covered d idle t h = refl
signal-covered d (recording i s) none h = h
signal-covered d (recording i s) (some t) h = refl
signal-covered d (paused i s) none h = h
signal-covered d (paused i s) (some t) h = refl

handle_command-HasSession :
    (j : Json) (d : Dispatcher) (now : ℕ) (c : IpcCommand j)
    → HasSession d
    → HasSession (handle_command j d now c).0
unfolding handle_command start stop emit spawn_background_tasks covered
handle_command-HasSession j d now (start_recording i) h = refl
handle_command-HasSession j d now stop_recording h = refl
handle_command-HasSession j d now pause_recording h = pause-covered d d.state d.tasks h
handle_command-HasSession j d now resume_recording h = resume-covered d d.state d.tasks h
handle_command-HasSession j d now get_status h = h
handle_command-HasSession j d now subscribe_telemetry h = h
handle_command-HasSession j d now (set_device i) h = h
handle_command-HasSession j d now (update_config v) h = h
handle_command-HasSession j d now shutdown h = signal-covered d d.state d.tasks h
handle_command-HasSession j d now health h = h
handle_command-HasSession j d now stats h = h

run-HasSession :
    (j : Json) (d : Dispatcher) (cs : List (ℕ × IpcCommand j))
    → HasSession d
    → HasSession (run j d cs)
unfolding run
run-HasSession j d [] h = h
run-HasSession j d ((now, c) ∷ rest) h =
    run-HasSession j (handle_command j d now c).0 rest (handle_command-HasSession j d now c h)

-- After any commands to a new dispatcher, a recording that is on or paused has its channels: a
-- stop can reach its tasks.
pub new-HasSession :
    (j : Json) (t : ℕ) (cs : List (ℕ × IpcCommand j)) → HasSession (run j (new t) cs)
unfolding new covered
new-HasSession j t cs = run-HasSession j (new t) cs refl

-- The tasks of a session that is there are told to stop.
abbrev pub Told : Option Tasks → Type 0
Told none = ⊥
Told (some t) = t.told_to_stop ≡ true

signal-Told :
    (d : Dispatcher) (i : Option ℕ) (s : ℕ) (t : Option Tasks)
    → covered (recording i s) t ≡ true
    → Told (signal_shutdown (record d { tasks = t })).tasks
unfolding signal_shutdown covered
signal-Told d i s none h = absurd (true≢false (sym h))
signal-Told d i s (some t) h = refl

-- A dispatcher that any commands brought from new to a recording has tasks, and the shutdown command
-- tells them to stop; but the state is still that recording behind it, and `health` goes on to report
-- an active one.
pub shutdown-keeps_state :
    (j : Json) (t : ℕ) (cs : List (ℕ × IpcCommand j)) (i : Option ℕ) (s now later : ℕ)
    → (run j (new t) cs).state ≡ recording i s
    → let after = (handle_command j (run j (new t) cs) now shutdown).0 in
      Told after.tasks
      × (after.state ≡ recording i s)
      × ((handle_command j after later health).1
          ≡ ok_health (later - after.start_time) true recording_name)
unfolding handle_command emit signal_shutdown is_recording state_name
shutdown-keeps_state j t cs i s now later on =
    let d = run j (new t) cs in
    (
      signal-Told d i s d.tasks (rw on at (new-HasSession j t cs)),
      on,
      ap (λ x. ok_health (later - d.start_time) (is_recording x) (state_name x)) on,
    )
