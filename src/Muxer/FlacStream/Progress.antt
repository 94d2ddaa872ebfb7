-- ===== src/Muxer/FlacStream/Progress.antt =====
-- The state of `FlacMuxer` between packets: what has been written, and what is buffered.
use baxters_stereo_mix_lin.Base.{
  ℕ, zero, suc, ◌+◌, ◌*◌, ◌≤◌, ◌<◌, ◌≡◌, refl, sym, ap, ◌∙◌, true, some, List, [], ◌++◌, append-nil,
  append_assoc, length, length-append, length-drop, take, drop, arith, Bool-cases, inl, inr,
  Option-cases, leb, leb→le,
}
use baxters_stereo_mix_lin.Base.Bits.{u32, u64}
use baxters_stereo_mix_lin.Base.Int.{ℤ}
use baxters_stereo_mix_lin.Core.{PcmFormat, AudioPacket, is_ok}
use baxters_stereo_mix_lin.Flac.Frame.{encode_frame}
use baxters_stereo_mix_lin.Muxer.Disk.{Disk, IsDisk, write_each}
use baxters_stereo_mix_lin.Muxer.Wav.Content.{concat, write_each-view}
use baxters_stereo_mix_lin.Muxer.FlacStream.{
  samples_of, flac_block_size, FlacMuxer, header_chunks, open_flac, samples_per_block, next_block,
  block_frame, flush_loop, flush_blocks, write_packet,
}
use baxters_stereo_mix_lin.Muxer.FlacStream.Reference.{
  block_samples, from_block, full_blocks, drop-append, from_block-suc, full_blocks-append,
  from_block-zero, length-from_block,
}

module _ (d : Disk) (laws : IsDisk d) (fmt : PcmFormat) where
  -- After `q` full blocks of the samples `pcm`, with the rest in the buffer.
  pub record IsStreaming (m : FlacMuxer d) (q : ℕ) (pcm : List ℤ) : Type 0 where
    pub handle : d.Writer
    pub opened : m.writer ≡ some handle
    pub channels : m.channels ≡ fmt.channels
    pub sample_rate : m.sample_rate ≡ fmt.sample_rate
    pub bits_per_sample : m.bits_per_sample ≡ fmt.bit_depth
    pub reached : q * block_samples fmt ≤ length pcm
    pub buffered : m.pcm_buffer ≡ from_block fmt q pcm
    pub numbered : m.frame_number ≡ u32 q
    pub counted : m.total_samples ≡ u64 (q * flac_block_size)
    pub written : d.view handle ≡ concat (header_chunks fmt) ++ full_blocks fmt q pcm

  pub open_flac-IsStreaming :
      (m : FlacMuxer d) (path : d.Place)
      → is_ok (open_flac d m path fmt).1 ≡ true
      → IsStreaming (open_flac d m path fmt).0 0 []
  unfolding open_flac full_blocks
  open_flac-IsStreaming m path h = elim (Option-cases (d.create path)) [
    | inl lost ↦ absurd (ground (arith, h, lost))
    | inr (w, made) ↦ elim (Bool-cases (write_each d w (header_chunks fmt)).1) [
      | inl good ↦
          rw (open_flac, made, good)
            (record {
              handle = (write_each d w (header_chunks fmt)).0;
              opened = refl;
              channels = refl;
              sample_rate = refl;
              bits_per_sample = refl;
              reached = omega arith;
              buffered = sym (from_block-zero fmt []);
              numbered = refl;
              counted = refl;
              written =
                  write_each-view d laws w (header_chunks fmt) good
                  ∙ ap (λ t. t ++ concat (header_chunks fmt)) (laws.create_view path w made)
                  ∙ sym (append-nil (concat (header_chunks fmt)));
            })
      | inr bad ↦ absurd (ground (arith, h, made, bad))
    ]
  ]

  -- More samples in the buffer.
  buffer-IsStreaming :
      (m : FlacMuxer d) (q : ℕ) (pcm more : List ℤ)
      → IsStreaming m q pcm
      → IsStreaming (record m { pcm_buffer = m.pcm_buffer ++ more }) q (pcm ++ more)
  unfolding from_block
  buffer-IsStreaming m q pcm more s = record {
    handle = s.handle;
    opened = s.opened;
    channels = s.channels;
    sample_rate = s.sample_rate;
    bits_per_sample = s.bits_per_sample;
    reached = omega (arith, s.reached, length-append pcm more);
    buffered =
        ap (λ t. t ++ more) s.buffered
        ∙ sym (drop-append (q * block_samples fmt) pcm more s.reached);
    numbered = s.numbered;
    counted = s.counted;
    written =
        s.written
        ∙ ap (λ t. concat (header_chunks fmt) ++ t)
            (sym (full_blocks-append fmt q pcm more s.reached));
  }

  block_size-fmt :
      (m : FlacMuxer d) (q : ℕ) (pcm : List ℤ)
      → IsStreaming m q pcm
      → samples_per_block d m ≡ block_samples fmt
  unfolding samples_per_block block_samples
  block_size-fmt m q pcm s = ap (λ (t : ℕ). 4096 * t) s.channels

  block_frame_lem :
      (m : FlacMuxer d) (q : ℕ) (pcm : List ℤ)
      → (s : IsStreaming m q pcm)
      → block_frame d m
        ≡ encode_frame
            (take (block_samples fmt) (from_block fmt q pcm))
            fmt.channels
            fmt.sample_rate
            fmt.bit_depth
            (u32 q)
  unfolding block_frame
  block_frame_lem m q pcm s =
      rw
        (
          block_size-fmt m q pcm s,
          s.buffered,
          s.channels,
          s.sample_rate,
          s.bits_per_sample,
          s.numbered,
        )
        refl

  -- One more block out of the buffer.
  block-IsStreaming :
      (m : FlacMuxer d) (q : ℕ) (pcm : List ℤ)
      → (s : IsStreaming m q pcm) → samples_per_block d m ≤ length m.pcm_buffer
      → (d.write_all s.handle (block_frame d m)).1 ≡ true
      → IsStreaming
          (record (next_block d m) { writer = some (d.write_all s.handle (block_frame d m)).0 })
          (suc q)
          pcm
  unfolding full_blocks
  block-IsStreaming m q pcm s full good = record {
    handle = (d.write_all s.handle (block_frame d m)).0;
    opened = refl;
    channels = s.channels;
    sample_rate = s.sample_rate;
    bits_per_sample = s.bits_per_sample;
    reached = omega (
      arith,
      s.reached,
      full,
      block_size-fmt m q pcm s,
      ap length s.buffered,
      length-from_block fmt q pcm,
      split,
    );
    buffered =
        ap (λ t. drop t m.pcm_buffer) (block_size-fmt m q pcm s)
        ∙ ap (drop (block_samples fmt)) s.buffered
        ∙ from_block-suc fmt q pcm;
    numbered = omega (arith, s.numbered);
    counted = omega (arith, s.counted);
    written =
        laws.write_all_view s.handle (block_frame d m) good
        ∙ ap (λ t. t ++ block_frame d m) s.written
        ∙ append_assoc (concat (header_chunks fmt)) (full_blocks fmt q pcm) (block_frame d m)
        ∙ ap (λ t. concat (header_chunks fmt) ++ (full_blocks fmt q pcm ++ t))
            (block_frame_lem m q pcm s);
  }
    where
      split : suc q * block_samples fmt ≡ q * block_samples fmt + block_samples fmt
      split = grind arith

  some_block : 1 ≤ fmt.channels → 1 ≤ block_samples fmt
  unfolding block_samples
  some_block h = omega arith

  -- The loop, with fuel for every buffered sample, ends with less than a block in the buffer.
  flush_loop-IsStreaming :
      (fuel : ℕ) (m : FlacMuxer d) (q : ℕ) (pcm : List ℤ)
      → 1 ≤ fmt.channels
      → IsStreaming m q pcm
      → length m.pcm_buffer ≤ fuel
      → is_ok (flush_loop d fuel m).1 ≡ true
      → (q' : ℕ) × IsStreaming (flush_loop d fuel m).0 q' pcm
        × (length (flush_loop d fuel m).0.pcm_buffer < block_samples fmt)
  unfolding flush_loop
  flush_loop-IsStreaming zero m q pcm some_channel s enough h =
      (q, s, unfold block_samples in omega arith)
  flush_loop-IsStreaming (suc fuel) m q pcm some_channel s enough h =
      elim (Bool-cases (leb (samples_per_block d m) (length m.pcm_buffer))) [
        | inr short ↦ rw (flush_loop, short) (q, s, ground (arith, block_size-fmt m q pcm s, short))
        | inl full ↦ elim (Bool-cases (d.write_all s.handle (block_frame d m)).1) [
          | inr bad ↦ absurd (ground (arith, h, full, s.opened, bad))
          | inl good ↦
              rw (flush_loop, full, s.opened, good)
                (flush_loop-IsStreaming fuel _ (suc q) pcm some_channel
                  (block-IsStreaming m q pcm s (leb→le _ _ full) good)
                  (omega (
                    arith,
                    enough,
                    length-drop (samples_per_block d m) m.pcm_buffer,
                    leb→le _ _ full,
                    block_size-fmt m q pcm s,
                    some_block some_channel,
                  ))
                  (rw (flush_loop, full, s.opened, good) at h))
        ]
      ]

  -- A successful `write_packet` takes in the packet's samples, writes every full block, and leaves
  -- less than a block in the buffer.
  pub write_packet-IsStreaming :
      (m : FlacMuxer d) (q : ℕ) (pcm : List ℤ) (pkt : AudioPacket)
      → 1 ≤ fmt.channels
      → IsStreaming m q pcm
      → is_ok (write_packet d m pkt).1 ≡ true
      → (q' : ℕ) × IsStreaming (write_packet d m pkt).0 q' (pcm ++ samples_of pkt.payload)
        × (length (write_packet d m pkt).0.pcm_buffer < block_samples fmt)
  unfolding write_packet flush_blocks
  write_packet-IsStreaming m q pcm pkt some_channel s h =
      flush_loop-IsStreaming _ _ q _ some_channel
        (buffer-IsStreaming m q pcm (samples_of pkt.payload) s) (omega arith) h
