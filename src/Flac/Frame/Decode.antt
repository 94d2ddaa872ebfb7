-- ===== src/Flac/Frame/Decode.antt =====
-- A decoder of frames after the FLAC format description, both checksums included.
use baxters_stereo_mix_lin.Base.{
  ℕ, ◌+◌, ◌-◌, Option, none, some, List, length, take, ltb, ◌==◌, if◌then◌else◌, ◌&&◌,
}
use baxters_stereo_mix_lin.Base.Int.{ℤ}
use baxters_stereo_mix_lin.Flac.Crc.Remainder.{checksum, header_polynomial, frame_polynomial}
use baxters_stereo_mix_lin.Flac.BitWriter.Stream.{bytes_bits}
use baxters_stereo_mix_lin.Flac.Reader.{Reader, pure, refuse, ◌>>=◌, ◌>>◌, read, expect, many}
use baxters_stereo_mix_lin.Flac.Header.Codes.{read_block_size, read_sample_rate}
use baxters_stereo_mix_lin.Flac.Header.Number.{read_number}
use baxters_stereo_mix_lin.Flac.Channels.Rows.{interleave}
use baxters_stereo_mix_lin.Flac.Subframe.RoundTrip.{read_subframe}

-- What `r` reads, then the header's checksum of all the bits it came from.
unfoldable pub with_crc8 : {A : Type 0} → Reader A → Reader A
with_crc8 r bs = elim (r bs) [
  | none ↦ none
  | some (a, rest) ↦
      (expect 8 (checksum 8 header_polynomial (take (length bs - length rest) bs)) >> pure a) rest
]

pub record FrameHeader : Type 0 where
  pub block_size : ℕ
  pub sample_rate : ℕ
  pub channels : ℕ
  pub bits_per_sample : ℕ
  pub frame_number : ℕ

-- The sample size of a code; code 0 refers to the stream's header.
unfoldable pub sample_size : ℕ → ℕ → ℕ
sample_size stream_size code =
    if code == 0
    then stream_size
    else if code == 1
    then 8
    else if code == 2
    then 12
    else if code == 4
    then 16
    else if code == 5
    then 20
    else if code == 6
    then 24
    else 32

-- Channels coded independently: up to eight.
unfoldable pub independent : ℕ → FrameHeader → Reader FrameHeader
independent channel_code header = if ltb channel_code 8 then pure header else refuse

-- The header of a stream with blocks of a fixed size.
unfoldable pub read_header : ℕ → Reader FrameHeader
read_header stream_size = do
  expect 16 0b1111111111111000
  size_code ← read 4
  rate_code ← read 4
  channel_code ← read 4
  bits_code ← read 3
  expect 1 0
  number ← read_number
  block_size ← read_block_size size_code
  sample_rate ← read_sample_rate rate_code
  independent channel_code (record {
    block_size = block_size;
    sample_rate = sample_rate;
    channels = channel_code + 1;
    bits_per_sample = sample_size stream_size bits_code;
    frame_number = number;
  })

unfoldable pub read_frame : ℕ → Reader (FrameHeader × List ℤ)
read_frame stream_size = do
  header ← with_crc8 (read_header stream_size)
  ch_data ← many header.channels (read_subframe header.block_size (header.bits_per_sample - 1))
  pure (header, interleave header.block_size ch_data)

-- A whole frame: with its checksum at the end it leaves no remainder, and behind the subframes there is less than a byte of padding
-- and the checksum.
unfoldable pub decode_frame : ℕ → List ℕ → Option (FrameHeader × List ℤ)
decode_frame stream_size frame = elim (read_frame stream_size (bytes_bits frame)) [
  | none ↦ none
  | some (decoded, rest) ↦
      if (checksum 16 frame_polynomial (bytes_bits frame) == 0) && ltb (length rest) 24
      then some decoded
      else none
]
