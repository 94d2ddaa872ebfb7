-- ===== src/Flac/Frame/RoundTrip.antt =====
-- The decoder undoes `encode_frame`.
use baxters_stereo_mix_lin.Base.{
  ℕ, sym, All-append, suc, ◌-◌, ◌*◌, ◌/◌, ◌%◌, ◌^◌, ◌≤◌, ◌<◌, ◌≡◌, refl, ap, ◌∙◌, some, List, [],
  ◌∷◌, ◌++◌, append_assoc, arith, All, All-both, length, length-append, replicate, length-replicate,
  lt→ltb,
}
use baxters_stereo_mix_lin.Base.Int.{ℤ}
use baxters_stereo_mix_lin.Flac.BitWriter.{
  BitWriter, new, write_bits, byte_align, bytes, into_bytes,
}
use baxters_stereo_mix_lin.Flac.BitWriter.Stream.{bytes_bits, bytes_bits-append, IsValid, Extends}
use baxters_stereo_mix_lin.Flac.BitWriter.Write.{new-IsValid, written-new}
use baxters_stereo_mix_lin.Flac.BitWriter.Align.{
  padding, byte_align-Extends, byte_align-bit_pos, bytes-written,
}
use baxters_stereo_mix_lin.Flac.BitWriter.Whole.{whole, write_bits-two_bytes, into_bytes-whole}
use baxters_stereo_mix_lin.Flac.Reader.{many}
use baxters_stereo_mix_lin.Flac.Reader.Emits.{Emits, emit_pure, emit_bind, emit-IsValid, emit_many}
use baxters_stereo_mix_lin.Flac.Crc.{crc8, crc16}
use baxters_stereo_mix_lin.Flac.Crc.Check.{crc16_lt, crc16_residue}
use baxters_stereo_mix_lin.Flac.Crc.Remainder.{checksum, frame_polynomial}
use baxters_stereo_mix_lin.Flac.Crc.Remainder.Bytes.{crc16-checksum}
use baxters_stereo_mix_lin.Flac.Header.Codes.{IsCodable}
use baxters_stereo_mix_lin.Flac.Channels.{deinterleave}
use baxters_stereo_mix_lin.Flac.Channels.Rows.{interleave, HasLength}
use baxters_stereo_mix_lin.Flac.Channels.RoundTrip.{deinterleave-IsFilled, deinterleave-All}
use baxters_stereo_mix_lin.Flac.Subframe.{encode_subframe}
use baxters_stereo_mix_lin.Flac.Subframe.RoundTrip.{read_subframe, IsI16, encode_subframe-Emits}
use baxters_stereo_mix_lin.Flac.Frame.{write_header, write_subframes, encode_frame}
use baxters_stereo_mix_lin.Flac.Frame.Decode.{
  with_crc8, FrameHeader, read_header, read_frame, decode_frame,
}
use mathlib.Core.Path.{subst}
use native.Mathlib.Nat.{mul-div_cancel}
use baxters_stereo_mix_lin.Flac.Frame.Checked.{emit_crc8}
use baxters_stereo_mix_lin.Flac.Frame.Fields.{header_of, emit_header, write_header-bit_pos}

decode_frame-accepts :
    (bps : ℕ) (frame : List ℕ) (decoded : FrameHeader × List ℤ) (rest : List ℕ)
    → read_frame bps (bytes_bits frame) ≡ some (decoded, rest)
    → checksum 16 frame_polynomial (bytes_bits frame) ≡ 0
    → length rest < 24
    → decode_frame bps frame ≡ some decoded
unfolding decode_frame
decode_frame-accepts bps frame decoded rest e check few =
    rw (decode_frame, e, check, lt→ltb (length rest) 24 few) refl

two_bytes : (c : ℕ) → c < 2 ^ 16 → All (λ b. b < 256) ((c / 256) ∷ (c % 256) ∷ [])
two_bytes c h = (omega (arith, h), (omega arith, tt))

-- The whole frame, of `n` samples in each of `ch` channels, in `w + 1` bits.
module _ (pcm : List ℤ) (n ch sr w fn : ℕ) (some_samples : 1 ≤ n) (block : n ≤ 65536)
    (some_channel : 1 ≤ ch) (channels : ch ≤ 8) (codable : IsCodable sr) (wide_enough : 15 ≤ w)
    (word : w < 63) (number : fn < 2 ^ 26) (count : length pcm ≡ n * ch) (fit : All IsI16 pcm) where
  abbrev IsChannel : List ℤ → Type 0
  IsChannel c = (length c ≡ n) × All IsI16 c

  block_size : length pcm / ch ≡ n
  block_size = rw count (mul-div_cancel n some_channel)

  emit_channel :
      (u : BitWriter) (c : List ℤ)
      → IsValid u
      → IsChannel c
      → Emits u (encode_subframe u c (suc w)) (read_subframe n w) c
  emit_channel u [] v h = absurd (omega (arith, h.0))
  emit_channel u (s ∷ c) v h =
      subst (λ k. Emits u (encode_subframe u (s ∷ c) (suc w)) (read_subframe k w) (s ∷ c)) h.0
        (encode_subframe-Emits w wide_enough word s c h.1 u v)

  header : FrameHeader
  header = header_of n sr ch (suc w) fn

  header_writer : BitWriter
  header_writer = write_header new n sr ch (suc w) fn

  checked : BitWriter
  checked = write_bits header_writer (crc8 (bytes header_writer)) 8

  ch_data : List (List ℤ)
  ch_data = deinterleave ch pcm

  after : BitWriter
  after = write_subframes checked ch_data (suc w)

  aligned : BitWriter
  aligned = byte_align after

  frame_crc : ℕ
  frame_crc = crc16 (bytes aligned)

  frame : List ℕ
  frame = encode_frame pcm ch sr (suc w) fn

  start : new.bit_pos ≡ 0
  unfolding new
  start = refl

  emit_checked : Emits new checked (with_crc8 (read_header (suc w))) header
  unfolding checked header header_writer
  emit_checked =
      emit_crc8
        (emit_header n sr ch (suc w) fn some_samples block codable some_channel channels number new
          new-IsValid)
        (write_header-bit_pos new n sr ch (suc w) fn start)

  filled : (length ch_data ≡ ch) × All (HasLength n) ch_data × (interleave n ch_data ≡ pcm)
  unfolding ch_data
  filled = deinterleave-IsFilled ch n pcm count

  channels_fit : All IsChannel ch_data
  unfolding ch_data
  channels_fit =
      All-both (HasLength n) (All IsI16) ch_data filled.1 (deinterleave-All IsI16 ch pcm fit)

  emit_channels : Emits checked after (many ch (read_subframe n w)) ch_data
  unfolding after write_subframes
  emit_channels =
      subst (λ k. Emits checked after (many k (read_subframe n w)) ch_data) filled.0
        (emit_many IsChannel (λ u c. encode_subframe u c (suc w)) (read_subframe n w) emit_channel
          ch_data checked (emit-IsValid emit_checked) channels_fit)

  emit_frame : Emits new after (read_frame (suc w)) (header, pcm)
  unfolding read_frame header header_of
  emit_frame =
      let one_less : suc w - 1 ≡ w = omega arith in
      emit_bind _ emit_checked (
        rw one_less (
          emit_bind _ emit_channels
            (rw filled.2 (emit_pure after (header, pcm) (emit-IsValid emit_channels)))))

  align : Extends after aligned (replicate (padding after) 0)
  unfolding aligned
  align = byte_align-Extends after (emit-IsValid emit_channels)

  boundary : aligned.bit_pos ≡ 0
  unfolding aligned
  boundary = byte_align-bit_pos after

  -- The two bytes of the checksum behind the aligned bytes.
  frame_lem : frame ≡ bytes aligned ++ ((frame_crc / 256) ∷ (frame_crc % 256) ∷ [])
  unfolding frame encode_frame bytes aligned after checked header_writer ch_data frame_crc
  frame_lem = rw block_size (
      ap into_bytes (
        write_bits-two_bytes aligned frame_crc align.valid boundary
        ∙ ap (λ t. whole (bytes aligned ++ (t ∷ (frame_crc % 256) ∷ []))) high)
      ∙ into_bytes-whole (bytes aligned ++ ((frame_crc / 256) ∷ (frame_crc % 256) ∷ [])))
    where
      high : frame_crc / 256 % 256 ≡ frame_crc / 256
      high = omega (arith, crc16_lt (bytes aligned))

  frame_bytes : All (λ b. b < 256) frame
  unfolding frame_crc bytes aligned
  frame_bytes = rw frame_lem (
      All-append (λ b. b < 256) (bytes aligned) ((frame_crc / 256) ∷ (frame_crc % 256) ∷ [])
        align.valid.whole (two_bytes frame_crc (crc16_lt (bytes aligned))))

  frame_check : checksum 16 frame_polynomial (bytes_bits frame) ≡ 0
  unfolding frame_crc
  frame_check =
      sym (crc16-checksum frame frame_bytes) ∙ ap crc16 frame_lem ∙ crc16_residue (bytes aligned)

  -- What the reader leaves: the padding and the checksum.
  left : List ℕ
  left = replicate (padding after) 0 ++ bytes_bits ((frame_crc / 256) ∷ (frame_crc % 256) ∷ [])

  frame_bits : bytes_bits frame ≡ emit_frame.output ++ left
  unfolding left
  frame_bits =
      ap bytes_bits frame_lem
      ∙ bytes_bits-append (bytes aligned) crc_bytes
      ∙ ap (λ t. t ++ bytes_bits crc_bytes)
          (bytes-written aligned boundary
            ∙ align.content
            ∙ ap (λ t. t ++ pad)
                (emit_frame.extends.content ∙ ap (λ t. t ++ emit_frame.output) written-new))
      ∙ append_assoc emit_frame.output pad (bytes_bits crc_bytes)
    where
      pad : List ℕ
      pad = replicate (padding after) 0

      crc_bytes : List ℕ
      crc_bytes = (frame_crc / 256) ∷ (frame_crc % 256) ∷ []

  few_left : length left < 24
  unfolding left
  few_left = omega (
    arith,
    length-append (replicate (padding after) 0)
        (bytes_bits ((frame_crc / 256) ∷ (frame_crc % 256) ∷ [])),
    length-replicate {A = ℕ} (padding after) 0,
  )

  -- Decoding the frame, of samples of 16 to 63 bits, gives its header and the samples, and both
  -- checksums of the format hold.
  pub encode_frame-decodes :
      decode_frame (suc w) (encode_frame pcm ch sr (suc w) fn)
      ≡ some (header_of n sr ch (suc w) fn, pcm)
  unfolding frame header
  encode_frame-decodes =
      decode_frame-accepts (suc w) frame (header, pcm) left
        (ap (read_frame (suc w)) frame_bits ∙ emit_frame.reads left) frame_check few_left
