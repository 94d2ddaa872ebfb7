-- ===== src/Audio.antt =====
-- The capture: crates/bsm-audio/src/.
pub mod Channels
pub mod Negotiation
pub mod Backend
pub mod Pipeline
pub mod Null
pub mod Mock
pub mod Loopback
pub mod Monitor
pub mod Wasapi
