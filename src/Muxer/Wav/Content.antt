-- ===== src/Muxer/Wav/Content.antt =====
-- What a finished WAV file holds.
use baxters_stereo_mix_lin.Base.{
  ℕ, ◌+◌, ◌*◌, ◌/◌, ◌^◌, ◌<◌, ◌≡◌, refl, sym, ap, ◌∙◌, true, some, List, [], ◌∷◌, ◌++◌, append-nil,
  append_assoc, length, length-append, overwrite, arith, Bool-cases, inl, inr, Option-cases,
}
use baxters_stereo_mix_lin.Base.Bits.{u16, u32}
use baxters_stereo_mix_lin.Core.{PcmFormat, AudioPacket, is_ok}
use baxters_stereo_mix_lin.Muxer.Disk.{Disk, IsDisk, write_each}
use baxters_stereo_mix_lin.Muxer.Wav.{
  to_le_bytes, riff_tag, wave_tag, fmt_tag, data_tag, riff_chunks, WavMuxer, new, write_riff_header,
  open_wav, write_packet, patch_at, patch_sizes, finalize,
}

-- The whole file after the RIFF format: the header of 44 bytes with its sizes, then the data.
unfoldable pub wav_file : PcmFormat → List ℕ → List ℕ
wav_file fmt samples =
    riff_tag
    ++ (to_le_bytes 4 (36 + length samples)
        ++ (wave_tag
            ++ (fmt_tag
                ++ (to_le_bytes 4 16
                    ++ (to_le_bytes 2 1
                        ++ (to_le_bytes 2 fmt.channels
                            ++ (to_le_bytes 4 fmt.sample_rate
                                ++ (to_le_bytes 4
                                      (fmt.sample_rate * fmt.channels * (fmt.bit_depth / 8))
                                    ++ (to_le_bytes 2 (fmt.channels * (fmt.bit_depth / 8))
                                        ++ (to_le_bytes 2 fmt.bit_depth
                                            ++ (data_tag
                                                ++ (to_le_bytes 4 (length samples)
                                                    ++ samples))))))))))))

abbrev pub concat : List (List ℕ) → List ℕ
concat [] = []
concat (x ∷ xs) = x ++ concat xs

module _ (d : Disk) (laws : IsDisk d) where
  pub write_each-view :
      (w : d.Writer) (chunks : List (List ℕ))
      → (write_each d w chunks).1 ≡ true
      → d.view (write_each d w chunks).0 ≡ d.view w ++ concat chunks
  unfolding write_each
  write_each-view w [] h = sym (append-nil (d.view w))
  write_each-view w (bs ∷ rest) h = elim (Bool-cases (d.write_all w bs).1) [
    | inl good ↦ rw good (
        write_each-view (d.write_all w bs).0 rest (rw good at h)
        ∙ ap (λ t. t ++ concat rest) (laws.write_all_view w bs good)
        ∙ append_assoc (d.view w) bs (concat rest))
    | inr bad ↦ absurd (ground (arith, h, bad))
  ]

  abbrev blank_header : PcmFormat → List ℕ
  blank_header fmt = concat (riff_chunks fmt.channels fmt.sample_rate fmt.bit_depth)

  -- The muxer is open, and `samples` have been written behind the header.
  pub record IsRecording (m : WavMuxer d) (fmt : PcmFormat) (samples : List ℕ) : Type 0 where
    pub handle : d.Writer
    pub opened : m.writer ≡ some handle
    pub written : d.view handle ≡ blank_header fmt ++ samples
    pub counted : m.bytes_written ≡ u32 (length samples)

  -- A successful `open` of a new muxer has written the header.
  pub open_wav-IsRecording :
      (path : d.Place) (fmt : PcmFormat)
      → is_ok (open_wav d (new d) path fmt).1 ≡ true
      → IsRecording (open_wav d (new d) path fmt).0 fmt []
  unfolding open_wav write_riff_header new
  open_wav-IsRecording path fmt h = elim (Option-cases (d.create path)) [
    | inl lost ↦ absurd (ground (arith, h, lost))
    | inr (w, made) ↦
        let header = write_each d w (riff_chunks fmt.channels fmt.sample_rate fmt.bit_depth) in
        elim (Bool-cases header.1) [
          | inl good ↦
              rw (open_wav, made, good)
                (record {
                  handle = header.0;
                  opened = refl;
                  written =
                      write_each-view w (riff_chunks fmt.channels fmt.sample_rate fmt.bit_depth)
                        good
                      ∙ ap (λ t. t ++ blank_header fmt) (laws.create_view path w made)
                      ∙ sym (append-nil (blank_header fmt));
                  counted = refl;
                })
          | inr bad ↦ absurd (ground (arith, h, made, bad))
        ]
  ]

  -- A successful `write_packet` appends the packet's bytes.
  pub write_packet-IsRecording :
      (m : WavMuxer d) (fmt : PcmFormat) (samples : List ℕ) (pkt : AudioPacket)
      → IsRecording m fmt samples
      → is_ok (write_packet d m pkt).1 ≡ true
      → IsRecording (write_packet d m pkt).0 fmt (samples ++ pkt.payload)
  unfolding write_packet
  write_packet-IsRecording m fmt samples pkt r h =
      elim (Bool-cases (d.write_all r.handle pkt.payload).1) [
        | inl good ↦
            rw (r.opened, good)
              (record {
                handle = (d.write_all r.handle pkt.payload).0;
                opened = refl;
                written =
                    laws.write_all_view r.handle pkt.payload good
                    ∙ ap (λ t. t ++ pkt.payload) r.written
                    ∙ append_assoc (blank_header fmt) samples pkt.payload;
                counted = omega (arith, r.counted, length-append samples pkt.payload);
              })
        | inr bad ↦ absurd (ground (arith, h, r.opened, bad))
      ]

  patch_at-content :
      (f : d.File) (at : ℕ) (bs : List ℕ)
      → (patch_at d f at bs).1 ≡ true
      → d.content (patch_at d f at bs).0 ≡ overwrite at bs (d.content f)
  unfolding patch_at
  patch_at-content f at bs h = elim (Bool-cases (d.seek f at).1) [
    | inl good ↦ rw good (
        laws.write_file_content (d.seek f at).0 bs (rw good at h)
        ∙ ap (λ t. overwrite t bs (d.content (d.seek f at).0)) (laws.seek_position f at good)
        ∙ ap (overwrite at bs) (laws.seek_content f at good))
    | inr bad ↦ absurd (ground (arith, h, bad))
  ]

  patch_sizes-content :
      (f : d.File) (n : ℕ)
      → (patch_sizes d f n).1 ≡ true
      → d.content (patch_sizes d f n).0
        ≡ overwrite 40 (to_le_bytes 4 n) (overwrite 4 (to_le_bytes 4 (u32 (36 + n))) (d.content f))
  unfolding patch_sizes
  patch_sizes-content f n h = elim (Bool-cases (patch_at d f 4 (to_le_bytes 4 (u32 (36 + n)))).1) [
    | inl good ↦ rw good (
        patch_at-content (patch_at d f 4 (to_le_bytes 4 (u32 (36 + n)))).0 40 (to_le_bytes 4 n)
          (rw good at h)
        ∙ ap (overwrite 40 (to_le_bytes 4 n))
            (patch_at-content f 4 (to_le_bytes 4 (u32 (36 + n))) good))
    | inr bad ↦ absurd (ground (arith, h, bad))
  ]

-- The blank header with its sizes put in is the header of the format.
patched_header :
    (fmt : PcmFormat) (samples : List ℕ)
    → 36 + length samples < 2 ^ 32
    → fmt.channels * (fmt.bit_depth / 8) < 2 ^ 16
    → fmt.sample_rate * fmt.channels * (fmt.bit_depth / 8) < 2 ^ 32
    → overwrite 40 (to_le_bytes 4 (u32 (length samples))) (
        overwrite 4
          (to_le_bytes 4 (u32 (36 + u32 (length samples))))
          (concat (riff_chunks fmt.channels fmt.sample_rate fmt.bit_depth) ++ samples))
      ≡ wav_file fmt samples
unfolding riff_chunks wav_file to_le_bytes
patched_header fmt samples small align rate =
    let both : u32 (36 + u32 (length samples)) ≡ 36 + length samples = omega arith in
    let count : u32 (length samples) ≡ length samples = omega arith in
    let block : u16 (fmt.channels * (fmt.bit_depth / 8)) ≡ fmt.channels * (fmt.bit_depth / 8) =
      omega arith in
    let product : u32 (fmt.sample_rate * (fmt.channels * (fmt.bit_depth / 8)))
        ≡ fmt.sample_rate * fmt.channels * (fmt.bit_depth / 8) =
      grind arith in
    rw (both, count, block, product) refl

module _ (d : Disk) (laws : IsDisk d) where
  -- A successful `finalize` of a recording closes a file that is the WAV file of its samples, when
  -- their bytes and the rates fit the fields.
  pub finalize-wav_file :
      (m : WavMuxer d) (fmt : PcmFormat) (samples : List ℕ)
      → IsRecording d laws m fmt samples
      → 36 + length samples < 2 ^ 32
      → fmt.channels * (fmt.bit_depth / 8) < 2 ^ 16
      → fmt.sample_rate * fmt.channels * (fmt.bit_depth / 8) < 2 ^ 32
      → is_ok (finalize d m).2 ≡ true
      → (f : d.File) × ((finalize d m).1 ≡ some f) × (d.content f ≡ wav_file fmt samples)
  unfolding finalize
  finalize-wav_file m fmt samples r small align rate h = elim (Bool-cases (d.flush r.handle).1) [
    | inr bad ↦ absurd (ground (arith, h, r.opened, bad))
    | inl flushed ↦ elim (Option-cases (d.into_inner (d.flush r.handle).0)) [
      | inl lost ↦ absurd (ground (arith, h, r.opened, flushed, lost))
      | inr (file, inner) ↦ elim (Bool-cases (patch_sizes d file m.bytes_written).1) [
        | inr bad ↦ absurd (ground (arith, h, r.opened, flushed, inner, bad))
        | inl patched ↦
            let whole : d.content file
                ≡ concat (riff_chunks fmt.channels fmt.sample_rate fmt.bit_depth) ++ samples =
              laws.into_inner_content _ file inner ∙ laws.flush_view r.handle flushed ∙ r.written in
            rw (finalize, r.opened, flushed, inner)
              (
                (patch_sizes d file m.bytes_written).0,
                refl,
                patch_sizes-content d laws file m.bytes_written patched
                    ∙ rw (whole, r.counted) (patched_header fmt samples small align rate),
              )
      ]
    ]
  ]
