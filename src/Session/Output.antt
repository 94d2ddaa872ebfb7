-- ===== src/Session/Output.antt =====
-- The mux task of `RecordingSession::start` in crates/bsm-encode/src/output.rs, over any container
-- writer, a round of its loop for each element of a list of turns.
pub mod Recording
use baxters_stereo_mix_lin.Base.{
  ℕ, zero, suc, ◌+◌, ◌%◌, ◌^◌, Bool, true, false, Option, none, some, List, [], ◌∷◌, length,
}
use baxters_stereo_mix_lin.Base.Bits.{u64}
use baxters_stereo_mix_lin.Core.{AudioPacket, EncodeResult, ok, err}

-- The `AudioMuxer` trait, open for a session: what `finalize` leaves is `Closed`.
pub record AudioMuxer : Type 1 where
  pub Open : Type 0
  pub Closed : Type 0
  pub write_packet : Open → AudioPacket → Open × EncodeResult (Unit {0})
  pub finalize : Open → Closed × EncodeResult (Unit {0})

pub record MuxCounts : Type 0 where
  pub frames_written : ℕ
  pub bytes_written : ℕ
  pub frames_dropped : ℕ

unfoldable pub no_counts : MuxCounts
no_counts = record { frames_written = 0; bytes_written = 0; frames_dropped = 0 }

-- What is ready in a round of the biased `select!`: the shutdown is looked at first. A packet
-- channel that is closed leaves the shutdown to wait for.
pub record MuxTurn : Type 0 where
  pub shutdown : Bool
  pub packet : Option AudioPacket

module _ (m : AudioMuxer) where
  unfoldable pub mux_loop : m.Open → MuxCounts → List MuxTurn → m.Open × MuxCounts
  mux_loop s c [] = (s, c)
  mux_loop s c (turn ∷ rest) = elim turn.shutdown [
    | true ↦ (s, c)
    | false ↦ elim turn.packet [
      | none ↦ mux_loop s c rest
      | some pkt ↦
          let tried = m.write_packet s pkt in
          elim tried.1 [
            | ok _ ↦
                mux_loop tried.0
                  (record c {
                    frames_written = u64 (c.frames_written + 1);
                    bytes_written = u64 (c.bytes_written + length pkt.payload);
                  })
                  rest
            | err e ↦ (tried.0, record c { frames_dropped = u64 (c.frames_dropped + 1) })
          ]
    ]
  ]

  -- The whole task: the file is finished after the loop, whatever ended it.
  unfoldable pub mux_task : m.Open → List MuxTurn → m.Closed × EncodeResult MuxCounts
  mux_task s turns =
      let looped = mux_loop s no_counts turns in
      let closed = m.finalize looped.0 in
      elim closed.1 [ ok _ ↦ (closed.0, ok looped.1) | err e ↦ (closed.0, err e) ]
