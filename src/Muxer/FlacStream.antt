-- ===== src/Muxer/FlacStream.antt =====
-- `FlacMuxer` of crates/bsm-encode/src/muxer.rs.
pub mod Reference
pub mod Progress
pub mod Content
use baxters_stereo_mix_lin.Base.{
  ℕ, zero, suc, ◌+◌, ◌*◌, ◌/◌, ◌%◌, ◌^◌, Bool, true, false, Option, none, some, List, [], ◌∷◌, ◌++◌,
  length, take, drop, if◌then◌else◌, leb, ltb,
}
use baxters_stereo_mix_lin.Base.Bits.{u32, u64}
use baxters_stereo_mix_lin.Base.Int.{ℤ, from_twos}
use baxters_stereo_mix_lin.Core.{
  PcmFormat, AudioPacket, EncodeError, mux_failed, output_file, EncodeResult, ok, err,
}
use baxters_stereo_mix_lin.Flac.Frame.{encode_frame}
use baxters_stereo_mix_lin.Flac.StreamInfo.{build_streaminfo, patch_total}
use baxters_stereo_mix_lin.Muxer.Disk.{Disk, write_each}

-- `chunks_exact(2)` and `i16::from_le_bytes`; an odd byte at the end is left out.
unfoldable pub samples_of : List ℕ → List ℤ
samples_of (lo ∷ hi ∷ rest) = from_twos 15 (hi * 256 + lo) ∷ samples_of rest
samples_of bs = []

abbrev pub flac_block_size : ℕ
flac_block_size = 4096

pub record FlacMuxer (d : Disk) : Type 0 where
  pub writer : Option d.Writer
  pub pcm_buffer : List ℤ
  pub channels : ℕ
  pub sample_rate : ℕ
  pub bits_per_sample : ℕ
  pub frame_number : ℕ
  pub total_samples : ℕ

-- The marker, the header of the metadata block, and the block.
unfoldable pub header_chunks : PcmFormat → List (List ℕ)
header_chunks fmt =
    (0x66 ∷ 0x4C ∷ 0x61 ∷ 0x43 ∷ [])
    ∷ (0x80 ∷ 0x00 ∷ 0x00 ∷ 0x22 ∷ [])
    ∷ build_streaminfo flac_block_size flac_block_size fmt.sample_rate fmt.channels fmt.bit_depth 0
    ∷ []

module _ (d : Disk) where
  unfoldable pub new : FlacMuxer d
  new = record {
    writer = none;
    pcm_buffer = [];
    channels = 2;
    sample_rate = 48000;
    bits_per_sample = 16;
    frame_number = 0;
    total_samples = 0;
  }

  abbrev pub opened : PcmFormat → Option d.Writer → FlacMuxer d
  opened fmt writer = record {
    writer = writer;
    pcm_buffer = [];
    channels = fmt.channels;
    sample_rate = fmt.sample_rate;
    bits_per_sample = fmt.bit_depth;
    frame_number = 0;
    total_samples = 0;
  }

  unfoldable pub open_flac :
      FlacMuxer d → d.Place → PcmFormat → FlacMuxer d × EncodeResult (Unit {0})
  open_flac m path fmt = elim (d.create path) [
    | none ↦ (m, err output_file)
    | some w ↦
        let written = write_each d w (header_chunks fmt) in
        if written.1
        then (opened fmt (some written.0), ok tt)
        else (opened fmt m.writer, err mux_failed)
  ]

  unfoldable pub samples_per_block : FlacMuxer d → ℕ
  samples_per_block m = flac_block_size * m.channels

  -- What one round of the loop changes in front of the write.
  abbrev pub next_block : FlacMuxer d → FlacMuxer d
  next_block m = record m {
    pcm_buffer = drop (samples_per_block m) m.pcm_buffer;
    frame_number = u32 (m.frame_number + 1);
    total_samples = u64 (m.total_samples + flac_block_size);
  }

  unfoldable pub block_frame : FlacMuxer d → List ℕ
  block_frame m =
      encode_frame (take (samples_per_block m) m.pcm_buffer) m.channels m.sample_rate
        m.bits_per_sample m.frame_number

  -- `while self.pcm_buffer.len() >= samples_per_block`, on fuel.
  unfoldable pub flush_loop : ℕ → FlacMuxer d → FlacMuxer d × EncodeResult (Unit {0})
  flush_loop zero m = (m, ok tt)
  flush_loop (suc fuel) m = elim (leb (samples_per_block m) (length m.pcm_buffer)) [
    | false ↦ (m, ok tt)
    | true ↦ elim m.writer [
      | none ↦ (next_block m, err output_file)
      | some w ↦
          let written = d.write_all w (block_frame m) in
          let m' : FlacMuxer d = record (next_block m) { writer = some written.0 } in
          elim written.1 [ true ↦ flush_loop fuel m' | false ↦ (m', err mux_failed) ]
    ]
  ]

  unfoldable pub flush_blocks : FlacMuxer d → FlacMuxer d × EncodeResult (Unit {0})
  flush_blocks m = flush_loop (length m.pcm_buffer) m

  unfoldable pub write_packet : FlacMuxer d → AudioPacket → FlacMuxer d × EncodeResult (Unit {0})
  write_packet m pkt =
      flush_blocks (record m { pcm_buffer = m.pcm_buffer ++ samples_of pkt.payload })

  -- The samples that are left, as a shorter block.
  unfoldable pub flush_rest : FlacMuxer d → FlacMuxer d × EncodeResult (Unit {0})
  flush_rest m =
      let remaining = m.pcm_buffer in
      let block_samples = length remaining / m.channels in
      let drained : FlacMuxer d = record m { pcm_buffer = [] } in
      if ltb 0 block_samples
      then (let counted : FlacMuxer d = record drained {
        total_samples = u64 (m.total_samples + block_samples);
      } in
          let frame =
            encode_frame (take (block_samples * m.channels) remaining) m.channels m.sample_rate
              m.bits_per_sample m.frame_number in
          elim m.writer [
            | none ↦ (counted, ok tt)
            | some w ↦
                let written = d.write_all w frame in
                (
                  record counted { writer = some written.0 },
                  if written.1 then ok tt else err mux_failed,
                )
          ])
      else (drained, ok tt)

  -- Seek, read back, seek again and write: the count of samples in the stream header.
  unfoldable pub patch_file : d.File → ℕ → d.File × Bool
  patch_file file ts =
      let sought = d.seek file 21 in
      if sought.1
      then (let found = d.read_exact sought.0 5 in
          elim found.1 [
            | none ↦ (found.0, false)
            | some [] ↦ (found.0, false)
            | some (first ∷ more) ↦
                let again = d.seek found.0 21 in
                if again.1 then d.write_file again.0 (patch_total first ts) else (again.0, false)
          ])
      else (sought.0, false)

  unfoldable pub close_stream : FlacMuxer d → FlacMuxer d × Option d.File × EncodeResult (Unit {0})
  close_stream m = elim m.writer [
    | none ↦ (m, none, ok tt)
    | some w ↦
        let closed : FlacMuxer d = record m { writer = none } in
        let flushed = d.flush w in
        if flushed.1
        then elim (d.into_inner flushed.0) [
          | none ↦ (closed, none, err output_file)
          | some file ↦
              let patched = patch_file file m.total_samples in
              (closed, some patched.0, if patched.1 then ok tt else err output_file)
        ]
        else (closed, none, err mux_failed)
  ]

  unfoldable pub finalize : FlacMuxer d → FlacMuxer d × Option d.File × EncodeResult (Unit {0})
  finalize m =
      let rest = flush_rest m in
      elim rest.1 [ ok _ ↦ close_stream rest.0 | err e ↦ (rest.0, none, err e) ]
