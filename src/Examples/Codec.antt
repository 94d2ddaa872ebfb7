-- ===== src/Examples/Codec.antt =====
-- Theorems of the FLAC encoder at concrete inputs.
use baxters_stereo_mix_lin.Base.{
  ◌≡◌, refl, some, List, [], ◌∷◌, inl, arith, All, overwrite, get_elem?,
}
use baxters_stereo_mix_lin.Base.Int.{ℤ, pos, negsuc}
use baxters_stereo_mix_lin.Flac.BitWriter.{BitWriter, new, write_bits}
use baxters_stereo_mix_lin.Flac.BitWriter.Write.{new-IsValid}
use baxters_stereo_mix_lin.Flac.Reader.Emits.{Emits}
use baxters_stereo_mix_lin.Flac.Rice.{encode_residuals}
use baxters_stereo_mix_lin.Flac.Rice.RoundTrip.{read_residuals, encode_residuals-Emits}
use baxters_stereo_mix_lin.Flac.Subframe.{encode_subframe}
use baxters_stereo_mix_lin.Flac.Subframe.RoundTrip.{read_subframe, IsI16, encode_subframe-Emits}
use baxters_stereo_mix_lin.Flac.Header.{write_utf8_coded}
use baxters_stereo_mix_lin.Flac.Header.Number.{
  read_number, write_utf8_coded-Emits, write_utf8_coded_collides,
}
use baxters_stereo_mix_lin.Flac.Frame.{encode_frame}
use baxters_stereo_mix_lin.Flac.Frame.Decode.{decode_frame}
use baxters_stereo_mix_lin.Flac.Frame.Fields.{header_of}
use baxters_stereo_mix_lin.Flac.Crc.{crc8, crc16}
use baxters_stereo_mix_lin.Flac.BitWriter.Stream.{bytes_bits}
use baxters_stereo_mix_lin.Flac.Crc.Remainder.{checksum, header_polynomial, frame_polynomial}
use baxters_stereo_mix_lin.Flac.Crc.Remainder.Bytes.{crc8-checksum, crc16-checksum}
use baxters_stereo_mix_lin.Flac.Frame.RoundTrip.{encode_frame-decodes}
use baxters_stereo_mix_lin.Flac.StreamInfo.{build_streaminfo, patch_total}
use baxters_stereo_mix_lin.Flac.StreamInfo.RoundTrip.{
  read_streaminfo, build_streaminfo-decodes, patch_total-build,
}

-- Three samples in each of two channels.
abbrev stereo : List ℤ
stereo = pos 5 ∷ negsuc 0 ∷ pos 6 ∷ negsuc 0 ∷ pos 300 ∷ negsuc 0 ∷ []

stereo-IsI16 : All IsI16 stereo
stereo-IsI16 =
    (omega arith, (omega arith, (omega arith, (omega arith, (omega arith, (omega arith, tt))))))

encode_frame-decodes_example :
    decode_frame 16 (encode_frame stereo 2 44100 16 7) ≡ some (header_of 3 44100 2 16 7, stereo)
encode_frame-decodes_example =
    encode_frame-decodes stereo 3 2 44100 15 7 (omega arith) (omega arith) (omega arith)
      (omega arith) (inl (omega arith)) (omega arith) (omega arith) (omega arith) refl stereo-IsI16

encode_subframe-Emits_example :
    Emits new (encode_subframe new stereo 16) (read_subframe 6 15) stereo
encode_subframe-Emits_example =
    encode_subframe-Emits 15 (omega arith) (omega arith) (pos 5)
      (negsuc 0 ∷ pos 6 ∷ negsuc 0 ∷ pos 300 ∷ negsuc 0 ∷ []) stereo-IsI16 new new-IsValid

encode_residuals-Emits_example :
    Emits new
      (encode_residuals new (pos 70 ∷ negsuc 3 ∷ []))
      (read_residuals 2)
      (pos 70 ∷ negsuc 3 ∷ [])
encode_residuals-Emits_example =
    encode_residuals-Emits (pos 70 ∷ negsuc 3 ∷ []) (omega arith, (omega arith, tt)) new new-IsValid

abbrev five_bits : BitWriter
five_bits = write_bits new 0b10110 5

write_utf8_coded-Emits_example : Emits new (write_utf8_coded new 70000) read_number 70000
write_utf8_coded-Emits_example = write_utf8_coded-Emits new 70000 new-IsValid (omega arith)

write_utf8_coded_collides_example : write_utf8_coded new 136314880 ≡ write_utf8_coded new 2097152
write_utf8_coded_collides_example =
    write_utf8_coded_collides new 2097152 (omega arith) (omega arith)

build_streaminfo-decodes_example :
    read_streaminfo (build_streaminfo 4096 4096 44100 2 16 1000)
    ≡ some (record {
      min_block = 4096;
      max_block = 4096;
      sample_rate = 44100;
      channels = 2;
      bits_per_sample = 16;
      total_samples = 1000;
    })
build_streaminfo-decodes_example =
    build_streaminfo-decodes 4096 4096 44100 2 16 1000 (omega arith) (omega arith) (omega arith)
      (omega arith) (omega arith) (omega arith) (omega arith) (omega arith)

found : get_elem? (build_streaminfo 4096 4096 44100 2 16 0) 13 ≡ some 240
unfolding build_streaminfo
found = refl

patch_total-build_example :
    overwrite 13 (patch_total 240 1000) (build_streaminfo 4096 4096 44100 2 16 0)
    ≡ build_streaminfo 4096 4096 44100 2 16 1000
patch_total-build_example = patch_total-build 4096 4096 44100 2 16 1000 240 found

crc8-checksum_example :
    crc8 (0xFF ∷ 0xF8 ∷ []) ≡ checksum 8 header_polynomial (bytes_bits (0xFF ∷ 0xF8 ∷ []))
crc8-checksum_example = crc8-checksum (0xFF ∷ 0xF8 ∷ []) (omega arith, (omega arith, tt))

crc16-checksum_example :
    crc16 (0xFF ∷ 0xF8 ∷ []) ≡ checksum 16 frame_polynomial (bytes_bits (0xFF ∷ 0xF8 ∷ []))
crc16-checksum_example = crc16-checksum (0xFF ∷ 0xF8 ∷ []) (omega arith, (omega arith, tt))
