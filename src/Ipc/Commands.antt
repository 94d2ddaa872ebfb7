-- ===== src/Ipc/Commands.antt =====
-- Commands and responses: crates/bsm-ipc/src/commands.rs. JSON values and their parser are those of
-- `serde_json`, a parameter.
pub mod Names
use baxters_stereo_mix_lin.Base.{ℕ, ◌%◌, ◌^◌, Bool, true, false, Option, none, some, if◌then◌else◌}
use baxters_stereo_mix_lin.Base.Bits.{u32}
use baxters_stereo_mix_lin.Ipc.Text.{trim}
use Prim.Native.String.{String}
use text.Mathlib.Text.{◌==◌ as ◌=~◌}

pub data IpcError : Type 0 where
  serialization : IpcError
  unknown_command : String → IpcError

pub data IpcResult (A : Type 0) : Type 0 where
  ok : A → IpcResult A
  err : IpcError → IpcResult A

-- `get_u64 v key` stands for `v.get(key).and_then(|v| v.as_u64())`, `from_str` for the parse of a
-- text into its three fields.
pub record Json : Type 1 where
  pub Value : Type 0
  pub get_u64 : Value → String → Option ℕ
  pub from_str : String → Option (String × String × Value)

pub record CommandEnvelope (j : Json) : Type 0 where
  pub cmd : String
  pub id : String
  pub payload : j.Value

pub data IpcCommand (j : Json) : Type 0 where
  start_recording : Option ℕ → IpcCommand j
  stop_recording : IpcCommand j
  pause_recording : IpcCommand j
  resume_recording : IpcCommand j
  get_status : IpcCommand j
  subscribe_telemetry : IpcCommand j
  set_device : ℕ → IpcCommand j
  update_config : j.Value → IpcCommand j
  shutdown : IpcCommand j
  health : IpcCommand j
  stats : IpcCommand j

module _ (j : Json) where
  unfoldable pub parse : String → IpcResult (CommandEnvelope j)
  parse raw = elim (j.from_str (trim raw)) [
    | none ↦ err serialization
    | some (cmd, id, payload) ↦ ok (record { cmd = cmd; id = id; payload = payload })
  ]

  -- `n as u32`.
  unfoldable pub device_index : j.Value → Option ℕ
  device_index payload = elim (j.get_u64 payload "device_index") [
    | none ↦ none
    | some n ↦ some (u32 n)
  ]

  unfoldable pub from_envelope : CommandEnvelope j → IpcResult (IpcCommand j)
  from_envelope env =
      if env.cmd =~ "start_recording"
      then ok (start_recording (device_index env.payload))
      else if env.cmd =~ "stop_recording"
      then ok stop_recording
      else if env.cmd =~ "pause_recording"
      then ok pause_recording
      else if env.cmd =~ "resume_recording"
      then ok resume_recording
      else if env.cmd =~ "get_status"
      then ok get_status
      else if env.cmd =~ "subscribe_telemetry"
      then ok subscribe_telemetry
      else if env.cmd =~ "set_device"
      then elim (device_index env.payload) [ none ↦ err serialization | some i ↦ ok (set_device i) ]
      else if env.cmd =~ "update_config"
      then ok (update_config env.payload)
      else if env.cmd =~ "shutdown"
      then ok shutdown
      else if env.cmd =~ "health"
      then ok health
      else if env.cmd =~ "stats"
      then ok stats
      else err (unknown_command env.cmd)

  unfoldable pub parse_command : String → IpcResult (IpcCommand j × String)
  parse_command raw = elim (parse raw) [
    | err e ↦ err e
    | ok env ↦ elim (from_envelope env) [ err e ↦ err e | ok cmd ↦ ok (cmd, env.id) ]
  ]
