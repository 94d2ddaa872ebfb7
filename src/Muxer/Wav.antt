-- ===== src/Muxer/Wav.antt =====
-- `WavMuxer` of crates/bsm-encode/src/muxer.rs.
pub mod Content
use baxters_stereo_mix_lin.Base.{
  ℕ, zero, suc, ◌+◌, ◌*◌, ◌/◌, ◌%◌, ◌^◌, Bool, true, false, Option, none, some, List, [], ◌∷◌,
  length, if◌then◌else◌,
}
use baxters_stereo_mix_lin.Base.Bits.{u8, u16, u32}
use baxters_stereo_mix_lin.Core.{
  PcmFormat, AudioPacket, EncodeError, mux_failed, output_file, EncodeResult, ok, err,
}
use baxters_stereo_mix_lin.Muxer.Disk.{Disk, write_each}

-- `to_le_bytes` of a number of `n` bytes.
unfoldable pub to_le_bytes : ℕ → ℕ → List ℕ
to_le_bytes zero v = []
to_le_bytes (suc n) v = u8 v ∷ to_le_bytes n (v / 256)

-- The four-letter codes of the format.
abbrev pub riff_tag : List ℕ
riff_tag = 0x52 ∷ 0x49 ∷ 0x46 ∷ 0x46 ∷ []

abbrev pub wave_tag : List ℕ
wave_tag = 0x57 ∷ 0x41 ∷ 0x56 ∷ 0x45 ∷ []

abbrev pub fmt_tag : List ℕ
fmt_tag = 0x66 ∷ 0x6D ∷ 0x74 ∷ 0x20 ∷ []

abbrev pub data_tag : List ℕ
data_tag = 0x64 ∷ 0x61 ∷ 0x74 ∷ 0x61 ∷ []

unfoldable pub riff_chunks : ℕ → ℕ → ℕ → List (List ℕ)
riff_chunks channels sample_rate bits =
    let block_align = u16 (channels * (bits / 8)) in
    let byte_rate = u32 (sample_rate * block_align) in
    riff_tag
    ∷ to_le_bytes 4 0
    ∷ wave_tag
    ∷ fmt_tag
    ∷ to_le_bytes 4 16
    ∷ to_le_bytes 2 1
    ∷ to_le_bytes 2 channels
    ∷ to_le_bytes 4 sample_rate
    ∷ to_le_bytes 4 byte_rate
    ∷ to_le_bytes 2 block_align
    ∷ to_le_bytes 2 bits
    ∷ data_tag
    ∷ to_le_bytes 4 0
    ∷ []

pub record WavMuxer (d : Disk) : Type 0 where
  pub writer : Option d.Writer
  pub bytes_written : ℕ
  pub channels : ℕ
  pub sample_rate : ℕ
  pub bits_per_sample : ℕ

module _ (d : Disk) where
  unfoldable pub new : WavMuxer d
  new = record {
    writer = none;
    bytes_written = 0;
    channels = 2;
    sample_rate = 48000;
    bits_per_sample = 16;
  }

  unfoldable pub write_riff_header : d.Writer → ℕ → ℕ → ℕ → d.Writer × Bool
  write_riff_header w channels sample_rate bits =
      write_each d w (riff_chunks channels sample_rate bits)

  -- The fields that `open` sets in front of the header.
  abbrev pub opened : WavMuxer d → PcmFormat → Option d.Writer → WavMuxer d
  opened m fmt writer = record {
    writer = writer;
    bytes_written = m.bytes_written;
    channels = fmt.channels;
    sample_rate = fmt.sample_rate;
    bits_per_sample = fmt.bit_depth;
  }

  unfoldable pub open_wav : WavMuxer d → d.Place → PcmFormat → WavMuxer d × EncodeResult (Unit {0})
  open_wav m path fmt = elim (d.create path) [
    | none ↦ (m, err output_file)
    | some w ↦
        let written = write_riff_header w fmt.channels fmt.sample_rate fmt.bit_depth in
        if written.1
        then (opened m fmt (some written.0), ok tt)
        else (opened m fmt m.writer, err mux_failed)
  ]

  abbrev with_writer : WavMuxer d → Option d.Writer → ℕ → WavMuxer d
  with_writer m writer bytes_written = record {
    writer = writer;
    bytes_written = bytes_written;
    channels = m.channels;
    sample_rate = m.sample_rate;
    bits_per_sample = m.bits_per_sample;
  }

  unfoldable pub write_packet : WavMuxer d → AudioPacket → WavMuxer d × EncodeResult (Unit {0})
  write_packet m pkt = elim m.writer [
    | none ↦ (m, err output_file)
    | some w ↦
        let written = d.write_all w pkt.payload in
        if written.1
        then (
          with_writer m (some written.0) (u32 (m.bytes_written + u32 (length pkt.payload))),
          ok tt,
        )
        else (with_writer m (some written.0) m.bytes_written, err mux_failed)
  ]

  -- A seek and a write at the place.
  unfoldable pub patch_at : d.File → ℕ → List ℕ → d.File × Bool
  patch_at file at bs =
      let sought = d.seek file at in
      if sought.1 then d.write_file sought.0 bs else (sought.0, false)

  -- The two sizes, put in when the data is complete.
  unfoldable pub patch_sizes : d.File → ℕ → d.File × Bool
  patch_sizes file bytes_written =
      let riff = patch_at file 4 (to_le_bytes 4 (u32 (36 + bytes_written))) in
      if riff.1 then patch_at riff.0 40 (to_le_bytes 4 bytes_written) else (riff.0, false)

  -- The file, with what it holds when it is closed at the end, is none where the writer was never
  -- opened or was lost to a failure.
  unfoldable pub finalize : WavMuxer d → WavMuxer d × Option d.File × EncodeResult (Unit {0})
  finalize m = elim m.writer [
    | none ↦ (m, none, ok tt)
    | some w ↦
        let closed = with_writer m none m.bytes_written in
        let flushed = d.flush w in
        if flushed.1
        then elim (d.into_inner flushed.0) [
          | none ↦ (closed, none, err output_file)
          | some file ↦
              let patched = patch_sizes file m.bytes_written in
              (closed, some patched.0, if patched.1 then ok tt else err output_file)
        ]
        else (closed, none, err mux_failed)
  ]
