-- ===== src/Hrt.antt =====
-- The remote actions: crates/bsm-hrt/src/actions.rs, bridge.rs and client.rs. A round of a loop is an
-- element of a list: what is ready in it, and whether a write succeeds. JSON and the change of case
-- are parameters.
pub mod Relay
pub mod Twice
use baxters_stereo_mix_lin.Base.{
  ℕ, Bool, true, false, ◌||◌, Option, none, some, List, [], ◌∷◌, ◌++◌, if◌then◌else◌,
}
use Prim.Native.String.{String}
use text.Mathlib.Text.{◌==◌ as ◌=~◌}

-- The states of a recording that a heartbeat names.
pub data RecordingState : Type 0 where
  idle : RecordingState
  recording : RecordingState
  paused : RecordingState
  stopping : RecordingState
  error : RecordingState

pub record HeartbeatMsg : Type 0 where
  pub state : String
  pub uptime_ms : ℕ
  pub ts_ms : ℕ

pub record Library : Type 1 where
  pub Value : Type 0
  pub Number : Type 0
  pub to_lowercase : String → String
  pub get : String → Value → Option Value
  pub as_f64 : Value → Option Number
  pub inbound_of : String → Option (String × Value)
  pub register_json : Option String
  pub heartbeat_json : HeartbeatMsg → Option String

pub record HrtInboundMsg (j : Library) : Type 0 where
  pub msg : String
  pub payload : j.Value

pub data Event (j : Library) : Type 0 where
  hrt_throttle : ℕ → j.Number → Event j
  hrt_emergency_stop : ℕ → j.Value → Event j
  hrt_ack : ℕ → j.Value → Event j
  hrt_unknown : ℕ → String → j.Value → Event j

-- What the actions change: the shutdown of the application, and the telemetry.
pub record AppState (j : Library) : Type 0 where
  pub told_to_stop : Bool
  pub events : List (Event j)

pub data SessionTurn : Type 0 where
  shutdown : SessionTurn
  tick : RecordingState → ℕ → ℕ → Bool → SessionTurn
  line : String → SessionTurn
  closed : SessionTurn

pub record ConnectionTurn : Type 0 where
  pub shutdown_before : Bool
  pub pipe_opens : Bool
  pub writable : Bool
  pub session : List SessionTurn
  pub shutdown_behind : Bool

-- The heartbeats written, the messages sent on to the bridge, and those that a task of their own
-- handles.
pub record Session (j : Library) : Type 0 where
  pub written : List String
  pub sent : List (HrtInboundMsg j)
  pub spawned : List (HrtInboundMsg j)

pub data BridgeTurn (j : Library) : Type 0 where
  stop : BridgeTurn j
  received : ℕ → HrtInboundMsg j → BridgeTurn j
  lagged : ℕ → BridgeTurn j
  channel_closed : BridgeTurn j

unfoldable pub or_else : {A : Type 0} → Option A → Option A → Option A
or_else (some a) o = some a
or_else none o = o

unfoldable pub state_text : RecordingState → String
state_text idle = "idle"
state_text recording = "recording"
state_text paused = "paused"
state_text stopping = "stopping"
state_text error = "error"

module _ (j : Library) where
  unfoldable pub number_at : String → j.Value → Option j.Number
  number_at key v = elim (j.get key v) [ none ↦ none | some x ↦ j.as_f64 x ]

  unfoldable pub level_of : j.Value → Option j.Number
  level_of v = or_else (number_at "level" v) (or_else (number_at "value" v) (number_at "percent" v))

  unfoldable pub is_emergency : String → Bool
  is_emergency tag = (tag =~ "e-stop") || ((tag =~ "estop") || (tag =~ "emergency_stop"))

  unfoldable pub is_ack : String → Bool
  is_ack tag = (tag =~ "ack") || (tag =~ "acknowledge")

  unfoldable pub emit_raw : AppState j → Event j → AppState j
  emit_raw app e = record app { events = app.events ++ (e ∷ []) }

  unfoldable pub throttle : AppState j → ℕ → j.Value → AppState j
  throttle app now v = elim (level_of v) [ none ↦ app | some l ↦ emit_raw app (hrt_throttle now l) ]

  unfoldable pub handle_inbound_message : AppState j → ℕ → HrtInboundMsg j → AppState j
  handle_inbound_message app now m =
      let tag = j.to_lowercase m.msg in
      if tag =~ "throttle"
      then throttle app now m.payload
      else if is_emergency tag
      then emit_raw (record app { told_to_stop = true }) (hrt_emergency_stop now m.payload)
      else if is_ack tag
      then emit_raw app (hrt_ack now m.payload)
      else emit_raw app (hrt_unknown now m.msg m.payload)

  -- The loop of `spawn_bridge`.
  unfoldable pub bridge : List (BridgeTurn j) → AppState j → AppState j
  bridge [] app = app
  bridge (stop ∷ rest) app = app
  bridge (received now m ∷ rest) app = bridge rest (handle_inbound_message app now m)
  bridge (lagged lost ∷ rest) app = bridge rest app
  bridge (channel_closed ∷ rest) app = app

  unfoldable pub heartbeat : RecordingState → ℕ → ℕ → HeartbeatMsg
  heartbeat state uptime now = record { state = state_text state; uptime_ms = uptime; ts_ms = now }

  unfoldable pub relay : Session j → String → Session j
  relay s text = elim (j.inbound_of text) [
    | none ↦ s
    | some parsed ↦
        let m : HrtInboundMsg j = record { msg = parsed.0; payload = parsed.1 } in
        record s { sent = s.sent ++ (m ∷ []); spawned = s.spawned ++ (m ∷ []) }
  ]

  unfoldable pub registered : Session j → Bool → Session j
  registered s writable = elim j.register_json [
    | none ↦ s
    | some json ↦ if writable then record s { written = s.written ++ (json ∷ []) } else s
  ]

  -- The session after a tick, and whether it goes on.
  unfoldable pub beat : Session j → HeartbeatMsg → Bool → Session j × Bool
  beat s hb writable = elim (j.heartbeat_json hb) [
    | none ↦ (s, true)
    | some json ↦
        if writable then (record s { written = s.written ++ (json ∷ []) }, true) else (s, false)
  ]

  unfoldable pub hrt_session : List SessionTurn → Session j → Session j
  hrt_session [] s = s
  hrt_session (shutdown ∷ rest) s = s
  hrt_session (tick state uptime now writable ∷ rest) s =
      let beaten = beat s (heartbeat state uptime now) writable in
      let later = hrt_session rest beaten.0 in if beaten.1 then later else beaten.0
  hrt_session (line text ∷ rest) s = hrt_session rest (relay s text)
  hrt_session (closed ∷ rest) s = s

  -- Whether the platform is Windows and the pipe opens: on each way the source gives an error.
  unfoldable pub connect_to_hrt : Bool → Bool → Option (Unit {0})
  connect_to_hrt windows false = none
  connect_to_hrt false true = none
  connect_to_hrt true true = none

  -- The rounds of the connection loop, each with what the session in it would meet.
  unfoldable pub hrt_connection_loop : Bool → List ConnectionTurn → Session j → Session j
  hrt_connection_loop windows [] s = s
  hrt_connection_loop windows (turn ∷ rest) s =
      let tried : Session j = elim (connect_to_hrt windows turn.pipe_opens) [
        | none ↦ s
        | some connected ↦ hrt_session turn.session (registered s turn.writable)
      ] in
      let later = hrt_connection_loop windows rest tried in
      if turn.shutdown_before then s else if turn.shutdown_behind then tried else later
