-- ===== src/Examples/Remote.antt =====
-- Theorems of the remote actions at concrete inputs.
use baxters_stereo_mix_lin.Base.{ℕ, ◌≡◌, true, false, none, some, List, [], ◌∷◌, ◌++◌}
use baxters_stereo_mix_lin.Hrt.{
  Library, AppState, SessionTurn, shutdown, tick, line, recording, hrt_session, bridge,
}
use baxters_stereo_mix_lin.Hrt.Relay.{no_messages, live, messages, beats}
use baxters_stereo_mix_lin.Hrt.Twice.{run_all, delivered, hrt_session-relays}

-- Every line is a message with a number, and a heartbeat is printed as its state.
abbrev plain : Library
plain = record {
  Value = ℕ;
  Number = ℕ;
  to_lowercase = λ s. s;
  get = λ key v. some v;
  as_f64 = λ v. some v;
  inbound_of = λ text. some (text, 50);
  register_json = none;
  heartbeat_json = λ hb. some hb.state;
}

abbrev running : AppState plain
running = record { told_to_stop = false; events = [] }

abbrev rounds : List SessionTurn
rounds = line "throttle" ∷ tick recording 100 7 true ∷ line "estop" ∷ shutdown ∷ line "ack" ∷ []

hrt_session-relays_example :
    let s = hrt_session plain rounds (no_messages plain) in
    (s.written ≡ beats plain (live plain rounds))
    × (bridge plain (delivered plain 7 s.sent) (run_all plain running 7 s.spawned)
        ≡ run_all plain running 7
            (messages plain (live plain rounds) ++ messages plain (live plain rounds)))
hrt_session-relays_example = hrt_session-relays plain rounds 7 running
