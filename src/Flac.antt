-- ===== src/Flac.antt =====
-- crates/bsm-encode/src/flac_enc.rs, the FLAC encoder.
pub mod BitWriter
pub mod Reader
pub mod Crc
pub mod Header
pub mod Rice
pub mod Subframe
pub mod Channels
pub mod Frame
pub mod StreamInfo
