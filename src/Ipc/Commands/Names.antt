-- ===== src/Ipc/Commands/Names.antt =====
-- Which commands a name stands for.
use baxters_stereo_mix_lin.Base.{
  ◌≡◌, sym, none, some, if◌then◌else◌, Bool-cases, Option-cases, inl, inr,
}
use baxters_stereo_mix_lin.Ipc.Commands.{
  serialization, IpcResult, ok, err, Json, CommandEnvelope, IpcCommand, start_recording,
  stop_recording, pause_recording, resume_recording, get_status, subscribe_telemetry, set_device,
  update_config, shutdown, health, stats, device_index, from_envelope,
}
use Prim.Native.String.{String}
use text.Mathlib.Text.{◌==◌ as ◌=~◌}
use text.Mathlib.TextEquality.{eq_iff}

module _ (j : Json) where
  unfoldable pub name : IpcCommand j → String
  name (start_recording i) = "start_recording"
  name stop_recording = "stop_recording"
  name pause_recording = "pause_recording"
  name resume_recording = "resume_recording"
  name get_status = "get_status"
  name subscribe_telemetry = "subscribe_telemetry"
  name (set_device i) = "set_device"
  name (update_config v) = "update_config"
  name shutdown = "shutdown"
  name health = "health"
  name stats = "stats"

  abbrev pub Named : IpcResult (IpcCommand j) → String → Type 0
  Named (ok c) s = name c ≡ s
  Named (err e) s = Unit {0}

  either :
      (s key : String) (yes' no' : IpcResult (IpcCommand j))
      → (s ≡ key → Named yes' s)
      → Named no' s
      → Named (if s =~ key then yes' else no') s
  either s key yes' no' f g = elim (Bool-cases (s =~ key)) [
    | inl same ↦ rw same (f ((eq_iff s key).0 same))
    | inr differ ↦ rw differ g
  ]

  device :
      (env : CommandEnvelope j)
      → env.cmd ≡ "set_device"
      → Named
          (elim (device_index j env.payload) [
            | none ↦ err serialization
            | some i ↦ ok (set_device i)
          ])
          env.cmd
  unfolding name
  device env e = elim (Option-cases (device_index j env.payload)) [
    | inl missing ↦ rw missing tt
    | inr (i, found) ↦ rw found (sym e)
  ]

  -- An envelope that is taken is taken for a command of its own name.
  pub from_envelope-Named : (env : CommandEnvelope j) → Named (from_envelope j env) env.cmd
  unfolding from_envelope name
  from_envelope-Named env =
      either s "start_recording" _ _ (λ e. sym e)
        (either s "stop_recording" _ _ (λ e. sym e)
          (either s "pause_recording" _ _ (λ e. sym e)
            (either s "resume_recording" _ _ (λ e. sym e)
              (either s "get_status" _ _ (λ e. sym e)
                (either s "subscribe_telemetry" _ _ (λ e. sym e)
                  (either s "set_device" _ _ (device env) (
                    either s "update_config" _ _ (λ e. sym e)
                      (either s "shutdown" _ _ (λ e. sym e)
                        (either s "health" _ _ (λ e. sym e)
                          (either s "stats" _ _ (λ e. sym e) tt))))))))))
    where
      s : String
      s = env.cmd
