-- ===== src/Hrt/Relay.antt =====
-- What a session with the remote daemon leaves: the loop of `hrt_session` in
-- crates/bsm-hrt/src/client.rs.
use baxters_stereo_mix_lin.Base.{
  ℕ, ◌≡◌, refl, sym, ap, ◌∙◌, Bool, true, false, not, none, some, List, [], ◌∷◌, ◌++◌, append-nil,
  append_assoc, Bool-cases, Option-cases, inl, inr, if◌then◌else◌,
}
use baxters_stereo_mix_lin.Hrt.{
  Library, HrtInboundMsg, RecordingState, SessionTurn, shutdown, tick, line, closed, Session,
  heartbeat, relay, beat, hrt_session,
}
use Prim.Native.String.{String}

abbrev pub no_messages : (j : Library) → Session j
no_messages j = record { written = []; sent = []; spawned = [] }

module _ (j : Library) where
  -- The rounds that end a session.
  unfoldable pub ends : SessionTurn → Bool
  ends shutdown = true
  ends (tick state uptime now writable) = elim (j.heartbeat_json (heartbeat j state uptime now)) [
    | none ↦ false
    | some json ↦ not writable
  ]
  ends (line text) = false
  ends closed = true

  -- The rounds in front of the first that ends the session.
  unfoldable pub live : List SessionTurn → List SessionTurn
  live [] = []
  live (turn ∷ rest) = let later = live rest in if ends turn then [] else turn ∷ later

  abbrev message : String × j.Value → HrtInboundMsg j
  message parsed = record { msg = parsed.0; payload = parsed.1 }

  unfoldable pub message_of : SessionTurn → List (HrtInboundMsg j)
  message_of (line text) = elim (j.inbound_of text) [
    | none ↦ []
    | some parsed ↦ message parsed ∷ []
  ]
  message_of shutdown = []
  message_of (tick state uptime now writable) = []
  message_of closed = []

  unfoldable pub beat_of : SessionTurn → List String
  beat_of (tick state uptime now writable) =
      elim (j.heartbeat_json (heartbeat j state uptime now)) [ none ↦ [] | some json ↦ json ∷ [] ]
  beat_of shutdown = []
  beat_of (line text) = []
  beat_of closed = []

  unfoldable pub messages : List SessionTurn → List (HrtInboundMsg j)
  messages [] = []
  messages (turn ∷ rest) = message_of turn ++ messages rest

  unfoldable pub beats : List SessionTurn → List String
  beats [] = []
  beats (turn ∷ rest) = beat_of turn ++ beats rest

  -- A session that has gone through some rounds.
  abbrev pub gone : Session j → List String → List (HrtInboundMsg j) → Session j
  gone s bs ms = record {
    written = s.written ++ bs;
    sent = s.sent ++ ms;
    spawned = s.spawned ++ ms;
  }

  gone-nil : (s : Session j) → s ≡ gone s [] []
  gone-nil s = λ i. record {
    written = sym (append-nil s.written) i;
    sent = sym (append-nil s.sent) i;
    spawned = sym (append-nil s.spawned) i;
  }

  gone-gone :
      (s : Session j) (bs bs' : List String) (ms ms' : List (HrtInboundMsg j))
      → gone (gone s bs ms) bs' ms' ≡ gone s (bs ++ bs') (ms ++ ms')
  gone-gone s bs bs' ms ms' = λ i. record {
    written = append_assoc s.written bs bs' i;
    sent = append_assoc s.sent ms ms' i;
    spawned = append_assoc s.spawned ms ms' i;
  }

  relay-gone : (s : Session j) (text : String) → relay j s text ≡ gone s [] (message_of (line text))
  unfolding relay message_of
  relay-gone s text = elim (Option-cases (j.inbound_of text)) [
    | inl bad ↦ rw (relay, message_of, bad) (gone-nil s)
    | inr (parsed, good) ↦
        rw (relay, message_of, good)
          (λ i. record {
            written = sym (append-nil s.written) i;
            sent = s.sent ++ (message parsed ∷ []);
            spawned = s.spawned ++ (message parsed ∷ []);
          })
  ]

  ends-none :
      (state : RecordingState) (uptime now : ℕ) (writable : Bool)
      → j.heartbeat_json (heartbeat j state uptime now) ≡ none
      → ends (tick state uptime now writable) ≡ false
  unfolding ends
  ends-none state uptime now writable bad = rw (ends, bad) refl

  ends-some :
      (state : RecordingState) (uptime now : ℕ) (writable : Bool) (json : String)
      → j.heartbeat_json (heartbeat j state uptime now) ≡ some json
      → ends (tick state uptime now writable) ≡ not writable
  unfolding ends
  ends-some state uptime now writable json good = rw (ends, good) refl

  beat_of-some :
      (state : RecordingState) (uptime now : ℕ) (writable : Bool) (json : String)
      → j.heartbeat_json (heartbeat j state uptime now) ≡ some json
      → beat_of (tick state uptime now writable) ≡ json ∷ []
  unfolding beat_of
  beat_of-some state uptime now writable json good = rw (beat_of, good) refl

  beat_of-none :
      (state : RecordingState) (uptime now : ℕ) (writable : Bool)
      → j.heartbeat_json (heartbeat j state uptime now) ≡ none
      → beat_of (tick state uptime now writable) ≡ []
  unfolding beat_of
  beat_of-none state uptime now writable bad = rw (beat_of, bad) refl

  live-end :
      (turn : SessionTurn) (rest : List SessionTurn) → ends turn ≡ true → live (turn ∷ rest) ≡ []
  unfolding live
  live-end turn rest h = rw (live, h) refl

  live-on :
      (turn : SessionTurn) (rest : List SessionTurn)
      → ends turn ≡ false
      → live (turn ∷ rest) ≡ turn ∷ live rest
  unfolding live
  live-on turn rest h = rw (live, h) refl

  abbrev pub Gone : List SessionTurn → Type 0
  Gone turns =
      (s : Session j) → hrt_session j turns s ≡ gone s (beats (live turns)) (messages (live turns))

  line-Gone : (text : String) (rest : List SessionTurn) → Gone rest → Gone (line text ∷ rest)
  unfolding hrt_session beats messages beat_of ends
  line-Gone text rest later s = rw (live-on (line text) rest refl) (
      ap (hrt_session j rest) (relay-gone s text)
      ∙ later (gone s [] (message_of (line text)))
      ∙ gone-gone s [] (beats (live rest)) (message_of (line text)) (messages (live rest)))

  end-Gone :
      (turn : SessionTurn) (rest : List SessionTurn) (s s' : Session j)
      → ends turn ≡ true
      → s' ≡ s
      → s' ≡ gone s (beats (live (turn ∷ rest))) (messages (live (turn ∷ rest)))
  unfolding beats messages
  end-Gone turn rest s s' h same = rw (live-end turn rest h) (same ∙ gone-nil s)

  silent-Gone :
      (state : RecordingState) (uptime now : ℕ) (writable : Bool) (rest : List SessionTurn)
      → j.heartbeat_json (heartbeat j state uptime now) ≡ none
      → Gone rest
      → Gone (tick state uptime now writable ∷ rest)
  unfolding hrt_session beat beats messages message_of
  silent-Gone state uptime now writable rest bad later s =
      rw
        (
          live-on _ rest (ends-none state uptime now writable bad),
          beats,
          beat_of-none state uptime now writable bad,
          hrt_session,
          beat,
          bad,
        )
        (later s)

  written-Gone :
      (state : RecordingState) (uptime now : ℕ) (rest : List SessionTurn) (json : String)
      → j.heartbeat_json (heartbeat j state uptime now) ≡ some json
      → Gone rest
      → Gone (tick state uptime now true ∷ rest)
  unfolding hrt_session beat beats messages message_of
  written-Gone state uptime now rest json good later s =
      rw
        (
          live-on _ rest (ends-some state uptime now true json good),
          beats,
          beat_of-some state uptime now true json good,
          hrt_session,
          beat,
          good,
        )
        (later (record s { written = s.written ++ (json ∷ []) }) ∙ (λ i. record {
          written = append_assoc s.written (json ∷ []) (beats (live rest)) i;
          sent = s.sent ++ messages (live rest);
          spawned = s.spawned ++ messages (live rest);
        }))

  lost-Gone :
      (state : RecordingState) (uptime now : ℕ) (rest : List SessionTurn) (json : String)
      → j.heartbeat_json (heartbeat j state uptime now) ≡ some json
      → Gone (tick state uptime now false ∷ rest)
  unfolding hrt_session beat
  lost-Gone state uptime now rest json good s =
      end-Gone (tick state uptime now false) rest s _ (ends-some state uptime now false json good)
        (rw (hrt_session, beat, good) refl)

  tick-Gone :
      (state : RecordingState) (uptime now : ℕ) (writable : Bool) (rest : List SessionTurn)
      → Gone rest
      → Gone (tick state uptime now writable ∷ rest)
  tick-Gone state uptime now writable rest later s =
      elim (Option-cases (j.heartbeat_json (heartbeat j state uptime now))) [
        | inl bad ↦ silent-Gone state uptime now writable rest bad later s
        | inr (json, good) ↦ elim (Bool-cases writable) [
          | inl kept ↦ rw kept (written-Gone state uptime now rest json good later s)
          | inr lost ↦ rw lost (lost-Gone state uptime now rest json good s)
        ]
      ]

  pub session-Gone : (turns : List SessionTurn) → Gone turns
  unfolding hrt_session live beats messages ends
  session-Gone [] s = gone-nil s
  session-Gone (shutdown ∷ rest) s = gone-nil s
  session-Gone (closed ∷ rest) s = gone-nil s
  session-Gone (line text ∷ rest) s = line-Gone text rest (session-Gone rest) s
  session-Gone (tick state uptime now writable ∷ rest) s =
      tick-Gone state uptime now writable rest (session-Gone rest) s
