-- ===== src/Session/Start/Summary.antt =====
-- What a stopped WAV session reports and leaves: crates/bsm-encode/src/output.rs.
use baxters_stereo_mix_lin.Base.{
  ℕ, ◌+◌, ◌*◌, ◌/◌, ◌^◌, ◌<◌, ◌≡◌, refl, sym, ap, ◌∙◌, true, Option, some, Option-cases, List,
  length, inl, inr,
}
use baxters_stereo_mix_lin.Core.{PcmFormat, EncodeResult, ok, err, is_ok, EncodeResult-cases}
use baxters_stereo_mix_lin.Session.Output.{MuxCounts, MuxTurn, mux_task}
use baxters_stereo_mix_lin.Session.Output.Recording.{wav_muxer, taken_bytes, mux_task-wav_file}
use baxters_stereo_mix_lin.Session.Paths.{AudioEncoderInfo, select_encoder}
use baxters_stereo_mix_lin.Session.Start.{
  RecordingSession, SessionHandle, SessionInfo, joined, room, handle_of, open_with, start, summary,
  stop,
}
use baxters_stereo_mix_lin.Muxer.Disk.{Disk, IsDisk}
use baxters_stereo_mix_lin.Muxer.Wav
use baxters_stereo_mix_lin.Muxer.Wav.Content.{wav_file}
use mathlib.Core.Bool.{true≢false}

abbrev ok_or : {A : Type 0} → A → EncodeResult A → A
ok_or a (ok b) = b
ok_or a (err e) = a

ok-injective : {A : Type 0} {a b : A} → ok a ≡ ok b → a ≡ b
ok-injective {a} e = ap (ok_or a) e

ok-ne-err : {A : Type 0} {a : A} {e : _} → err e ≡ ok a → ⊥
ok-ne-err h = true≢false (sym (ap is_ok h))

-- The writer of a session as `create_muxer` gives it for the WAV format, and its opening.
abbrev pub open_new : (d : Disk) → d.Place → PcmFormat → Wav.WavMuxer d × EncodeResult (Unit {0})
open_new d path fmt = Wav.open_wav d (Wav.new d) path fmt

module _ (d : Disk) where
  abbrev begin :
      RecordingSession d.Place
      → Option (Option ℕ)
      → EncodeResult (SessionHandle d.Place × Wav.WavMuxer d)
  begin = start (wav_muxer d) (open_new d)

  -- A session that starts has opened its file and goes by its own path and format.
  Started : RecordingSession d.Place → SessionHandle d.Place × Wav.WavMuxer d → Type 0
  Started s r =
      (is_ok (open_new d s.output_path s.input_format).1 ≡ true)
      × (e : AudioEncoderInfo) × (r
          ≡ (handle_of (wav_muxer d) (open_new d) s e, (open_new d s.output_path s.input_format).0))

  open_with-Started :
      (s : RecordingSession d.Place) (e : AudioEncoderInfo)
      (r : SessionHandle d.Place × Wav.WavMuxer d)
      → open_with (wav_muxer d) (open_new d) s e ≡ ok r
      → Started s r
  unfolding open_with Started
  open_with-Started s e r h =
      elim (EncodeResult-cases (open_new d s.output_path s.input_format).1) [
        | inl (done, good) ↦ (rw good refl, e, sym (ok-injective (rw (open_with, good) at h)))
        | inr (failed, bad) ↦ absurd (ok-ne-err (rw (open_with, bad) at h))
      ]

  start-Started :
      (s : RecordingSession d.Place) (space : Option (Option ℕ))
      (r : SessionHandle d.Place × Wav.WavMuxer d)
      → begin s space ≡ ok r
      → Started s r
  unfolding start
  start-Started s space r h = elim (EncodeResult-cases (room space)) [
    | inr (e, full) ↦ absurd (ok-ne-err (rw (start, full) at h))
    | inl (free, fits) ↦ elim (Option-cases (select_encoder (some s.encoder_name))) [
      | inl unknown ↦ absurd (ok-ne-err (rw (start, fits, unknown) at h))
      | inr (e, known) ↦ open_with-Started s e r (rw (start, fits, known) at h)
    ]
  ]

stop-ok :
    {Place : Type 0} (h : SessionHandle Place) (r : EncodeResult MuxCounts)
    (info : SessionInfo Place)
    → stop h (joined r) ≡ ok info
    → (c : MuxCounts) × (r ≡ ok c) × (info ≡ summary h c)
unfolding stop
stop-ok h (ok c) info e = (c, refl, sym (ok-injective e))
stop-ok h (err failed) info e = absurd (ok-ne-err e)

-- A WAV session that starts, and whose stop gives a summary in which nothing was dropped, leaves on
-- the disk the WAV file of the bytes of the packets that it took, where they fit the sizes of the
-- format; the summary has their number, the path of the session and its format.
pub stop-wav_file :
    (d : Disk) (laws : IsDisk d) (s : RecordingSession d.Place) (space : Option (Option ℕ))
    (r : SessionHandle d.Place × Wav.WavMuxer d) (turns : List MuxTurn) (info : SessionInfo d.Place)
    → start (wav_muxer d) (open_new d) s space ≡ ok r
    → stop r.0 (joined (mux_task (wav_muxer d) r.1 turns).1) ≡ ok info
    → info.frames_dropped ≡ 0
    → 36 + length (taken_bytes turns) < 2 ^ 32
    → s.input_format.channels * (s.input_format.bit_depth / 8) < 2 ^ 16
    → s.input_format.sample_rate * s.input_format.channels * (s.input_format.bit_depth / 8) < 2 ^ 32
    → (f : d.File) × ((mux_task (wav_muxer d) r.1 turns).0.1 ≡ some f)
      × (d.content f ≡ wav_file s.input_format (taken_bytes turns))
      × (info.bytes_written ≡ length (taken_bytes turns))
      × (info.output_file ≡ s.output_path)
      × (info.sample_rate ≡ s.input_format.sample_rate)
      × (info.channels ≡ s.input_format.channels)
unfolding summary handle_of Started
stop-wav_file d laws s space r turns info begins ends none_lost small align rate =
    let (opens, e, whole) = start-Started d s space r begins in
    let (c, done, told) = stop-ok r.0 _ info ends in
    let coder : r.1 ≡ (open_new d s.output_path s.input_format).0 = ap (λ x. x.1) whole in
    let lost : c.frames_dropped ≡ 0 =
      sym (ap (λ (i : SessionInfo d.Place). i.frames_dropped) told) ∙ none_lost in
    let (f, stored, bytes, count) =
      mux_task-wav_file d laws s.output_path s.input_format turns c opens (rw coder at done) lost
        small align rate in
    (
      f,
      rw coder stored,
      bytes,
      ap (λ (i : SessionInfo d.Place). i.bytes_written) told ∙ count,
      ap (λ (i : SessionInfo d.Place). i.output_file) told ∙ ap (λ x. x.0.output_file) whole,
      ap (λ (i : SessionInfo d.Place). i.sample_rate) told ∙ ap (λ x. x.0.sample_rate) whole,
      ap (λ (i : SessionInfo d.Place). i.channels) told ∙ ap (λ x. x.0.channels) whole,
    )
