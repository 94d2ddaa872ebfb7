-- ===== src/Muxer/FlacStream/Content.antt =====
-- What a finished FLAC file holds.
use baxters_stereo_mix_lin.Base.{
  ℕ, ◌+◌, ◌-◌, ◌*◌, ◌/◌, ◌≡◌, refl, sym, ap, ◌∙◌, true, some, List, [], ◌∷◌, ◌++◌, append-nil,
  append_assoc, length, take, drop, get_elem?, overwrite, arith, Bool-cases, inl, inr, Option-cases,
  ltb,
}
use baxters_stereo_mix_lin.Base.Bits.{u32, u64}
use baxters_stereo_mix_lin.Base.Int.{ℤ}
use baxters_stereo_mix_lin.Core.{PcmFormat, is_ok, EncodeResult-cases}
use baxters_stereo_mix_lin.Flac.Frame.{encode_frame}
use baxters_stereo_mix_lin.Flac.StreamInfo.{build_streaminfo, patch_total}
use baxters_stereo_mix_lin.Flac.StreamInfo.RoundTrip.{first_kept}
use baxters_stereo_mix_lin.Muxer.Disk.{Disk, IsDisk}
use baxters_stereo_mix_lin.Muxer.Wav.Content.{concat}
use baxters_stereo_mix_lin.Muxer.FlacStream.{
  flac_block_size, FlacMuxer, header_chunks, flush_rest, patch_file, close_stream, finalize,
}
use baxters_stereo_mix_lin.Muxer.FlacStream.Reference.{
  from_block, full_blocks, last_block, flac_file,
}
use baxters_stereo_mix_lin.Muxer.FlacStream.Progress.{IsStreaming}
use mathlib.Core.Option.{some-injective}
use mathlib.Core.Bool.{true≢false}
use mathlib.Core.Path.{subst}

-- The count put into the header that was written first.
patched_stream :
    (fmt : PcmFormat) (ts first : ℕ) (more frames : List ℕ)
    → (first ∷ more) ≡ take 5 (drop 21 (concat (header_chunks fmt) ++ frames))
    → overwrite 21 (patch_total first ts) (concat (header_chunks fmt) ++ frames)
      ≡ (0x66 ∷ 0x4C ∷ 0x61 ∷ 0x43 ∷ 0x80 ∷ 0x00 ∷ 0x00 ∷ 0x22 ∷ [])
        ++ (build_streaminfo flac_block_size flac_block_size fmt.sample_rate fmt.channels
              fmt.bit_depth ts
            ++ frames)
unfolding header_chunks build_streaminfo patch_total
patched_stream fmt ts first more frames found =
    rw (some-injective _ _ (ap (λ l. get_elem? l 0) found), first_kept (fmt.bit_depth - 1)) refl

module _ (d : Disk) (laws : IsDisk d) (fmt : PcmFormat) where
  -- Everything is in the writer, and nothing in the buffer.
  record IsComplete (m : FlacMuxer d) (q : ℕ) (pcm : List ℤ) : Type 0 where
    handle : d.Writer
    opened : m.writer ≡ some handle
    counted :
        m.total_samples ≡ u64 (q * flac_block_size + length (from_block fmt q pcm) / fmt.channels)
    written :
        d.view handle
        ≡ concat (header_chunks fmt) ++ (full_blocks fmt q pcm ++ last_block fmt q pcm)

  -- The state that the invariant describes.
  abbrev reached_state : d.Writer → ℕ → List ℤ → FlacMuxer d
  reached_state w q pcm = record {
    writer = some w;
    pcm_buffer = from_block fmt q pcm;
    channels = fmt.channels;
    sample_rate = fmt.sample_rate;
    bits_per_sample = fmt.bit_depth;
    frame_number = u32 q;
    total_samples = u64 (q * flac_block_size);
  }

  state_lem :
      (m : FlacMuxer d) (q : ℕ) (pcm : List ℤ)
      → (s : IsStreaming d laws fmt m q pcm) → m ≡ reached_state s.handle q pcm
  state_lem m q pcm s =
      rw
        (
          ← s.opened,
          ← s.buffered,
          ← s.channels,
          ← s.sample_rate,
          ← s.bits_per_sample,
          ← s.numbered,
          ← s.counted,
        )
        refl

  flush-reached :
      (w : d.Writer) (q : ℕ) (pcm : List ℤ)
      → d.view w ≡ concat (header_chunks fmt) ++ full_blocks fmt q pcm
      → is_ok (flush_rest d (reached_state w q pcm)).1 ≡ true
      → IsComplete (flush_rest d (reached_state w q pcm)).0 q pcm
  unfolding flush_rest last_block
  flush-reached w q pcm view h =
      elim (Bool-cases (ltb 0 (length (from_block fmt q pcm) / fmt.channels))) [
        | inl some_left ↦ elim (Bool-cases (d.write_all w frame).1) [
          | inl good ↦
              rw (flush_rest, some_left)
                (record {
                  handle = (d.write_all w frame).0;
                  opened = refl;
                  counted = omega arith;
                  written =
                      laws.write_all_view w frame good
                      ∙ ap (λ t. t ++ frame) view
                      ∙ append_assoc (concat (header_chunks fmt)) (full_blocks fmt q pcm) frame
                      ∙ ap (λ t. concat (header_chunks fmt) ++ (full_blocks fmt q pcm ++ t))
                          (rw some_left refl);
                })
          | inr bad ↦ absurd (true≢false (sym h ∙ rw (flush_rest, some_left, bad) refl))
        ]
        | inr none_left ↦
            rw (flush_rest, none_left)
              (record {
                handle = w;
                opened = refl;
                counted = ground (arith, none_left);
                written =
                    view
                    ∙ ap (λ t. concat (header_chunks fmt) ++ t)
                        (sym (append-nil (full_blocks fmt q pcm)))
                    ∙ ap (λ t. concat (header_chunks fmt) ++ (full_blocks fmt q pcm ++ t))
                        (rw none_left refl);
              })
      ]
    where
      frame : List ℕ
      frame =
          encode_frame
            (take (length (from_block fmt q pcm) / fmt.channels * fmt.channels)
              (from_block fmt q pcm))
            fmt.channels fmt.sample_rate fmt.bit_depth (u32 q)

  flush_rest-IsComplete :
      (m : FlacMuxer d) (q : ℕ) (pcm : List ℤ)
      → IsStreaming d laws fmt m q pcm
      → is_ok (flush_rest d m).1 ≡ true
      → IsComplete (flush_rest d m).0 q pcm
  flush_rest-IsComplete m q pcm s =
      subst (λ t. is_ok (flush_rest d t).1 ≡ true → IsComplete (flush_rest d t).0 q pcm)
        (sym (state_lem m q pcm s)) (flush-reached s.handle q pcm s.written)

  patch_file-content :
      (f : d.File) (ts : ℕ) (frames : List ℕ)
      → d.content f ≡ concat (header_chunks fmt) ++ frames
      → (patch_file d f ts).1 ≡ true
      → d.content (patch_file d f ts).0
        ≡ (0x66 ∷ 0x4C ∷ 0x61 ∷ 0x43 ∷ 0x80 ∷ 0x00 ∷ 0x00 ∷ 0x22 ∷ [])
          ++ (build_streaminfo flac_block_size flac_block_size fmt.sample_rate fmt.channels
                fmt.bit_depth ts
              ++ frames)
  unfolding patch_file
  patch_file-content f ts frames whole h = elim (Bool-cases (d.seek f 21).1) [
    | inr bad ↦ absurd (true≢false (sym h ∙ rw (patch_file, bad) refl))
    | inl sought ↦ elim (Option-cases (d.read_exact (d.seek f 21).0 5).1) [
      | inl lost ↦ absurd (true≢false (sym h ∙ rw (patch_file, sought, lost) refl))
      | inr ([], short) ↦ absurd (true≢false (sym h ∙ rw (patch_file, sought, short) refl))
      | inr (first ∷ more, found) ↦
          elim (Bool-cases (d.seek (d.read_exact (d.seek f 21).0 5).0 21).1) [
            | inr bad ↦ absurd (true≢false (sym h ∙ rw (patch_file, sought, found, bad) refl))
            | inl again ↦
                let read = (d.read_exact (d.seek f 21).0 5).0 in
                let kept : d.content read ≡ concat (header_chunks fmt) ++ frames =
                  laws.read_exact_content _ 5 _ found ∙ laws.seek_content f 21 sought ∙ whole in
                let bytes : (first ∷ more)
                    ≡ take 5 (drop 21 (concat (header_chunks fmt) ++ frames)) =
                  (laws.read_exact_bytes _ 5 _ found).0
                  ∙ ap (λ t. take 5 (drop t (d.content (d.seek f 21).0)))
                      (laws.seek_position f 21 sought)
                  ∙ ap (λ t. take 5 (drop 21 t)) (laws.seek_content f 21 sought ∙ whole) in
                rw (patch_file, sought, found, again)
                  (laws.write_file_content (d.seek read 21).0 (patch_total first ts)
                      (rw (patch_file, sought, found, again) at h)
                    ∙ ap (λ t. overwrite t (patch_total first ts) (d.content (d.seek read 21).0))
                        (laws.seek_position read 21 again)
                    ∙ ap (overwrite 21 (patch_total first ts))
                        (laws.seek_content read 21 again ∙ kept)
                    ∙ patched_stream fmt ts first more frames bytes)
          ]
    ]
  ]

  close_stream-content :
      (m : FlacMuxer d) (q : ℕ) (pcm : List ℤ)
      → IsComplete m q pcm
      → is_ok (close_stream d m).2 ≡ true
      → (f : d.File) × ((close_stream d m).1 ≡ some f) × (d.content f ≡ flac_file fmt q pcm)
  unfolding close_stream flac_file
  close_stream-content m q pcm c h = elim (Bool-cases (d.flush c.handle).1) [
    | inr bad ↦ absurd (true≢false (sym h ∙ rw (close_stream, c.opened, bad) refl))
    | inl flushed ↦ elim (Option-cases (d.into_inner (d.flush c.handle).0)) [
      | inl lost ↦ absurd (true≢false (sym h ∙ rw (close_stream, c.opened, flushed, lost) refl))
      | inr (file, inner) ↦ elim (Bool-cases (patch_file d file m.total_samples).1) [
        | inr bad ↦
            absurd (true≢false (sym h ∙ rw (close_stream, c.opened, flushed, inner, bad) refl))
        | inl patched ↦
            rw (close_stream, c.opened, flushed, inner)
              (
                (patch_file d file m.total_samples).0,
                refl,
                patch_file-content file m.total_samples _
                      (laws.into_inner_content _ file inner
                        ∙ laws.flush_view c.handle flushed
                        ∙ c.written)
                      patched
                    ∙ rw c.counted refl,
              )
      ]
    ]
  ]

  -- A successful `finalize` of a stream closes a file that is the FLAC file of its samples.
  pub finalize-flac_file :
      (m : FlacMuxer d) (q : ℕ) (pcm : List ℤ)
      → IsStreaming d laws fmt m q pcm
      → is_ok (finalize d m).2 ≡ true
      → (f : d.File) × ((finalize d m).1 ≡ some f) × (d.content f ≡ flac_file fmt q pcm)
  unfolding finalize
  finalize-flac_file m q pcm s h = elim (EncodeResult-cases (flush_rest d m).1) [
    | inr (e, failed) ↦ absurd (true≢false (sym h ∙ rw (finalize, failed) refl))
    | inl (done, complete) ↦
        let closes : finalize d m ≡ close_stream d (flush_rest d m).0 =
          rw (finalize, complete) refl in
        let whole = flush_rest-IsComplete m q pcm s (rw complete refl) in
        rw closes (close_stream-content (flush_rest d m).0 q pcm whole (rw closes at h))
  ]
