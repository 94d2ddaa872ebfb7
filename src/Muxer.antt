-- ===== src/Muxer.antt =====
-- The container writers of crates/bsm-encode/src/muxer.rs.
pub mod Disk
pub mod Wav
pub mod FlacStream
pub mod Bitrate
pub mod Mp3
use baxters_stereo_mix_lin.Base.{ℕ}
use Prim.Native.String.{String}

pub data ContainerFormat : Type 0 where
  mp3 : ContainerFormat
  flac : ContainerFormat
  wav : ContainerFormat

unfoldable pub extension : ContainerFormat → String
extension mp3 = "mp3"
extension flac = "flac"
extension wav = "wav"
