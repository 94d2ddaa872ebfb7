-- ===== src/Hrt/Twice.antt =====
-- The messages of a session and the bridge that they go to: crates/bsm-hrt/src/client.rs and
-- bridge.rs.
use baxters_stereo_mix_lin.Base.{ℕ, ◌≡◌, refl, ap, ◌∙◌, List, [], ◌∷◌, ◌++◌}
use baxters_stereo_mix_lin.Hrt.{
  Library, HrtInboundMsg, AppState, SessionTurn, Session, BridgeTurn, received,
  handle_inbound_message, bridge, hrt_session,
}
use baxters_stereo_mix_lin.Hrt.Relay.{no_messages, live, messages, beats, session-Gone}

module _ (j : Library) where
  -- The handling of messages one after the other.
  unfoldable pub run_all : AppState j → ℕ → List (HrtInboundMsg j) → AppState j
  run_all app now [] = app
  run_all app now (m ∷ rest) = run_all (handle_inbound_message j app now m) now rest

  unfoldable pub delivered : ℕ → List (HrtInboundMsg j) → List (BridgeTurn j)
  delivered now [] = []
  delivered now (m ∷ rest) = received now m ∷ delivered now rest

  bridge-run_all :
      (ms : List (HrtInboundMsg j)) (now : ℕ) (app : AppState j)
      → bridge j (delivered now ms) app ≡ run_all app now ms
  unfolding bridge delivered run_all
  bridge-run_all [] now app = refl
  bridge-run_all (m ∷ rest) now app = bridge-run_all rest now (handle_inbound_message j app now m)

  run_all-append :
      (ms ms' : List (HrtInboundMsg j)) (now : ℕ) (app : AppState j)
      → run_all (run_all app now ms) now ms' ≡ run_all app now (ms ++ ms')
  unfolding run_all
  run_all-append [] ms' now app = refl
  run_all-append (m ∷ rest) ms' now app =
      run_all-append rest ms' now (handle_inbound_message j app now m)

-- The messages of a session, the lines in front of its end that can be read, are handled twice: once
-- by the tasks that the session starts, here in their order, and once more by the bridge when all of
-- them are delivered to it. The session writes one heartbeat for each tick in front of its end that
-- can be printed.
pub hrt_session-relays :
    (j : Library) (turns : List SessionTurn) (now : ℕ) (app : AppState j)
    → let s = hrt_session j turns (no_messages j) in
      (s.written ≡ beats j (live j turns))
      × (bridge j (delivered j now s.sent) (run_all j app now s.spawned)
          ≡ run_all j app now (messages j (live j turns) ++ messages j (live j turns)))
hrt_session-relays j turns now app =
    let whole = session-Gone j turns (no_messages j) in
    (
      ap (λ (s : Session j). s.written) whole,
      bridge-run_all j _ now _
          ∙ run_all-append j _ _ now app
          ∙ ap (λ (s : Session j). run_all j app now (s.spawned ++ s.sent)) whole,
    )
