-- ===== src/Muxer/Mp3.antt =====
-- `Mp3Muxer` of crates/bsm-encode/src/muxer.rs. The MP3 encoder is a foreign library: its builder,
-- which may refuse each setting, and its two operations are a parameter.
pub mod Content
use baxters_stereo_mix_lin.Base.{
  ℕ, ◌%◌, ◌^◌, Bool, true, false, Option, none, some, List, [], ◌∷◌, length, ◌==◌, if◌then◌else◌,
}
use baxters_stereo_mix_lin.Base.Bits.{u8}
use baxters_stereo_mix_lin.Base.Int.{ℤ}
use baxters_stereo_mix_lin.Core.{
  PcmFormat, AudioPacket, EncodeError, open_failed, encode_failed, mux_failed, output_file,
  EncodeResult, ok, err,
}
use baxters_stereo_mix_lin.Muxer.Disk.{Disk}
use baxters_stereo_mix_lin.Muxer.FlacStream.{samples_of}
use baxters_stereo_mix_lin.Muxer.Bitrate.{nearest_bitrate}

-- The library with the settings of `mp3lame_encoder`; `encode` and `flush` give the encoder after
-- the call and the bytes that are ready.
pub record Lame : Type 1 where
  pub Builder : Type 0
  pub Encoder : Type 0
  pub new_builder : Option Builder
  pub set_num_channels : Builder → ℕ → Option Builder
  pub set_sample_rate : Builder → ℕ → Option Builder
  pub set_brate : Builder → ℕ → Option Builder
  pub set_quality_best : Builder → Option Builder
  pub build : Builder → Option Encoder
  pub encode : Encoder → List ℤ → Encoder × Option (List ℕ)
  pub flush : Encoder → Encoder × Option (List ℕ)

pub record Mp3Muxer (d : Disk) (l : Lame) : Type 0 where
  pub writer : Option d.Writer
  pub encoder : Option l.Encoder
  pub mp3_buf : List ℕ
  pub channels : ℕ

-- A chain of steps that may refuse.
infixl 5 ◌>>=◌
abbrev ◌>>=◌ : {A B : Type 0} → Option A → (A → Option B) → Option B
o >>= f = elim o [ none ↦ none | some a ↦ f a ]

module _ (d : Disk) (l : Lame) where
  unfoldable pub new : Mp3Muxer d l
  new = record { writer = none; encoder = none; mp3_buf = []; channels = 2 }

  unfoldable pub build_encoder : PcmFormat → ℕ → Option l.Encoder
  build_encoder fmt bitrate_kbps = do
    b ← l.new_builder
    c ← l.set_num_channels b (u8 fmt.channels)
    r ← l.set_sample_rate c fmt.sample_rate
    k ← l.set_brate r (nearest_bitrate bitrate_kbps)
    q ← l.set_quality_best k
    l.build q

  unfoldable pub open_mp3 :
      Mp3Muxer d l → d.Place → PcmFormat → ℕ → Mp3Muxer d l × EncodeResult (Unit {0})
  open_mp3 m path fmt bitrate_kbps = elim (d.create path) [
    | none ↦ (m, err output_file)
    | some w ↦
        let created : Mp3Muxer d l = record m { writer = some w; channels = fmt.channels } in
        elim (build_encoder fmt bitrate_kbps) [
          | none ↦ (created, err open_failed)
          | some e ↦ (record created { encoder = some e }, ok tt)
        ]
  ]

  -- `if !self.mp3_buf.is_empty() { writer.write_all(&self.mp3_buf) }`
  unfoldable pub write_buffer : d.Writer → List ℕ → d.Writer × Bool
  write_buffer w [] = (w, true)
  write_buffer w (b ∷ rest) = d.write_all w (b ∷ rest)

  unfoldable pub write_packet : Mp3Muxer d l → AudioPacket → Mp3Muxer d l × EncodeResult (Unit {0})
  write_packet m pkt = elim m.encoder [
    | none ↦ (m, err encode_failed)
    | some e ↦ elim m.writer [
      | none ↦ (m, err output_file)
      | some w ↦
          let coded = l.encode e (samples_of pkt.payload) in
          elim coded.1 [
            | none ↦ (record m { encoder = some coded.0; mp3_buf = [] }, err encode_failed)
            | some bytes ↦
                let written = write_buffer w bytes in
                (
                  record m { encoder = some coded.0; mp3_buf = bytes; writer = some written.0 },
                  if written.1 then ok tt else err mux_failed,
                )
          ]
    ]
  ]

  -- What `finalize` writes behind the packets: the rest that the encoder holds.
  unfoldable pub close_writer : Mp3Muxer d l → List ℕ → Mp3Muxer d l × EncodeResult (Unit {0})
  close_writer m bytes = elim m.writer [
    | none ↦ (m, ok tt)
    | some w ↦
        let written = write_buffer w bytes in
        elim written.1 [
          | false ↦ (record m { writer = some written.0 }, err mux_failed)
          | true ↦
              let flushed = d.flush written.0 in
              (record m { writer = some flushed.0 }, if flushed.1 then ok tt else err mux_failed)
        ]
  ]

  unfoldable pub finalize : Mp3Muxer d l → Mp3Muxer d l × EncodeResult (Unit {0})
  finalize m = elim m.encoder [
    | none ↦ (m, ok tt)
    | some e ↦
        let rest = l.flush e in
        elim rest.1 [
          | none ↦ (record m { encoder = some rest.0; mp3_buf = [] }, err encode_failed)
          | some bytes ↦ close_writer (record m { encoder = some rest.0; mp3_buf = bytes }) bytes
        ]
  ]
