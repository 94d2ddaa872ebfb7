-- ===== src/Session/Output/Recording.antt =====
-- A session as a whole, into a WAV and into a FLAC file.
use baxters_stereo_mix_lin.Base.{
  ℕ, ◌+◌, ◌*◌, ◌/◌, ◌^◌, ◌<◌, ◌≡◌, refl, sym, ap, ◌∙◌, Bool, true, false, Option, none, some, List,
  [], ◌∷◌, ◌++◌, length, length-append, arith, append-nil, append_assoc, inl, inr,
}
use baxters_stereo_mix_lin.Base.Bits.{u64}
use baxters_stereo_mix_lin.Core.{
  PcmFormat, AudioPacket, EncodeResult, ok, err, is_ok, EncodeResult-cases,
}
use baxters_stereo_mix_lin.Session.Output.{
  AudioMuxer, MuxCounts, no_counts, MuxTurn, mux_loop, mux_task,
}
use baxters_stereo_mix_lin.Muxer.Disk.{Disk, IsDisk}
use baxters_stereo_mix_lin.Muxer.Wav
use baxters_stereo_mix_lin.Muxer.Wav.Content.{
  wav_file, IsRecording, open_wav-IsRecording, write_packet-IsRecording, finalize-wav_file,
}
use mathlib.Core.Bool.{true≢false}

-- The bytes of the packets taken: up to the shutdown.
unfoldable pub taken_bytes : List MuxTurn → List ℕ
taken_bytes [] = []
taken_bytes (turn ∷ rest) = elim turn.shutdown [
  | true ↦ []
  | false ↦ elim turn.packet [
    | none ↦ taken_bytes rest
    | some pkt ↦ pkt.payload ++ taken_bytes rest
  ]
]

-- Over any writer whose successful writes keep an invariant of the bytes so far.
module _ (m : AudioMuxer) (Holds : m.Open → List ℕ → Type 0)
    (write : (s : m.Open) (bs : List ℕ) (pkt : AudioPacket)
      → Holds s bs
      → is_ok (m.write_packet s pkt).1 ≡ true
      → Holds (m.write_packet s pkt).0 (bs ++ pkt.payload)) where
  abbrev part : Bool → Option AudioPacket → MuxTurn
  part s p = record { shutdown = s; packet = p }

  -- Nothing dropped, and the count of bytes that of the bytes so far.
  abbrev Counted : m.Open × MuxCounts → List ℕ → Type 0
  Counted r bs = Holds r.0 bs × (r.1.bytes_written ≡ u64 (length bs))

  abbrev counted : MuxCounts → AudioPacket → MuxCounts
  counted c pkt = record c {
    frames_written = u64 (c.frames_written + 1);
    bytes_written = u64 (c.bytes_written + length pkt.payload);
  }

  abbrev Goal : List MuxTurn → Type 0
  Goal turns =
      (s : m.Open) (c : MuxCounts) (bs : List ℕ)
      → Counted (s, c) bs
      → c.frames_dropped ≡ 0
      → (mux_loop m s c turns).1.frames_dropped ≡ 0
      → Counted (mux_loop m s c turns) (bs ++ taken_bytes turns)

  turn-Counted :
      (sh : Bool) (p : Option AudioPacket) (rest : List MuxTurn)
      → Goal rest
      → Goal (part sh p ∷ rest)
  unfolding mux_loop taken_bytes
  turn-Counted true p rest later s c bs h none_yet none_after = rw (append-nil bs) h
  turn-Counted false none rest later s c bs h none_yet none_after =
      later s c bs h none_yet none_after
  turn-Counted false (some pkt) rest later s c bs h none_yet none_after =
      elim (EncodeResult-cases (m.write_packet s pkt).1) [
        | inr (e, failed) ↦
            let lost : (mux_loop m s c (part false (some pkt) ∷ rest)).1.frames_dropped
                ≡ u64 (c.frames_dropped + 1) =
              rw (mux_loop, failed) refl in
            absurd (omega (arith, none_yet, none_after, lost))
        | inl (done, good) ↦
            let next : mux_loop m s c (part false (some pkt) ∷ rest)
                ≡ mux_loop m (m.write_packet s pkt).0 (counted c pkt) rest =
              rw (mux_loop, good) refl in
            let grown : Counted ((m.write_packet s pkt).0, counted c pkt) (bs ++ pkt.payload) = (
              write s bs pkt h.0 (rw good refl),
              omega (arith, h.1, length-append bs pkt.payload),
            ) in
            rw (next, ← append_assoc bs pkt.payload (taken_bytes rest))
              (later (m.write_packet s pkt).0 (counted c pkt) (bs ++ pkt.payload) grown none_yet
                (rw next at none_after))
      ]

  loop-Counted : (turns : List MuxTurn) → Goal turns
  unfolding mux_loop taken_bytes
  loop-Counted [] s c bs h none_yet none_after = rw (append-nil bs) h
  loop-Counted (turn ∷ rest) s c bs h none_yet none_after =
      turn-Counted turn.shutdown turn.packet rest (loop-Counted rest) s c bs h none_yet none_after

counts_or : MuxCounts → EncodeResult MuxCounts → MuxCounts
counts_or c (ok r) = r
counts_or c (err e) = c

-- A task that ends well has finished its file and reports the counts of its loop.
mux_task-ok :
    (m : AudioMuxer) (s : m.Open) (turns : List MuxTurn) (counts : MuxCounts)
    → (mux_task m s turns).1 ≡ ok counts
    → (is_ok (m.finalize (mux_loop m s no_counts turns).0).1 ≡ true)
      × (counts ≡ (mux_loop m s no_counts turns).1)
      × ((mux_task m s turns).0 ≡ (m.finalize (mux_loop m s no_counts turns).0).0)
unfolding mux_task counts_or
mux_task-ok m s turns counts ends =
    elim (EncodeResult-cases (m.finalize (mux_loop m s no_counts turns).0).1) [
      | inr (e, failed) ↦
          let fails : (mux_task m s turns).1 ≡ err e = rw (mux_task, failed) refl in
          absurd (true≢false (ap is_ok (sym ends ∙ fails)))
      | inl (done, good) ↦
          let well : mux_task m s turns ≡ (
            (m.finalize (mux_loop m s no_counts turns).0).0,
            ok (mux_loop m s no_counts turns).1,
          ) =
            rw (mux_task, good) refl in
          (rw good refl, ap (counts_or counts) (sym ends ∙ ap (λ r. r.1) well), ap (λ r. r.0) well)
    ]

-- The WAV writer as a session's.
abbrev pub wav_muxer : Disk → AudioMuxer
wav_muxer d = record {
  Open = Wav.WavMuxer d;
  Closed = Wav.WavMuxer d × Option d.File;
  write_packet = Wav.write_packet d;
  finalize = λ m. ((let r = Wav.finalize d m in (r.0, r.1)), (Wav.finalize d m).2);
}

-- A session into a WAV file that ends well and drops nothing leaves the WAV file of the bytes of
-- the packets it took, when they fit the format's sizes, and reports how many they are.
pub mux_task-wav_file :
    (d : Disk) (laws : IsDisk d) (path : d.Place) (fmt : PcmFormat) (turns : List MuxTurn)
    (counts : MuxCounts)
    → is_ok (Wav.open_wav d (Wav.new d) path fmt).1 ≡ true
    → (mux_task (wav_muxer d) (Wav.open_wav d (Wav.new d) path fmt).0 turns).1 ≡ ok counts
    → counts.frames_dropped ≡ 0
    → 36 + length (taken_bytes turns) < 2 ^ 32
    → fmt.channels * (fmt.bit_depth / 8) < 2 ^ 16
    → fmt.sample_rate * fmt.channels * (fmt.bit_depth / 8) < 2 ^ 32
    → (f : d.File) × ((mux_task (wav_muxer d) (Wav.open_wav d (Wav.new d) path fmt).0 turns).0.1
        ≡ some f)
      × (d.content f ≡ wav_file fmt (taken_bytes turns))
      × (counts.bytes_written ≡ length (taken_bytes turns))
mux_task-wav_file d laws path fmt turns counts opens ends none_lost small align rate =
    let done = mux_task-ok (wav_muxer d) opened turns counts ends in
    let start : IsRecording d laws opened fmt [] = open_wav-IsRecording d laws path fmt opens in
    let nothing_lost : looped.1.frames_dropped ≡ 0 =
      ap (λ (c : MuxCounts). c.frames_dropped) (sym done.1) ∙ none_lost in
    let kept =
      loop-Counted (wav_muxer d) (λ m bs. IsRecording d laws m fmt bs)
        (λ m bs pkt r h. write_packet-IsRecording d laws m fmt bs pkt r h) turns opened no_counts []
        (start, begun) begun_none nothing_lost in
    let file =
      finalize-wav_file d laws looped.0 fmt (taken_bytes turns) kept.0 small align rate done.0 in
    (
      file.0,
      ap (λ (c : Wav.WavMuxer d × Option d.File). c.1) done.2 ∙ file.1,
      file.2,
      omega (arith, kept.1, ap (λ (c : MuxCounts). c.bytes_written) done.1),
    )
  where
    opened : Wav.WavMuxer d
    opened = (Wav.open_wav d (Wav.new d) path fmt).0

    looped : Wav.WavMuxer d × MuxCounts
    looped = mux_loop (wav_muxer d) opened no_counts turns

    begun : no_counts.bytes_written ≡ u64 0
    begun = unfold no_counts in refl

    begun_none : no_counts.frames_dropped ≡ 0
    begun_none = unfold no_counts in refl
