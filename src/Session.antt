-- ===== src/Session.antt =====
-- A recording session: crates/bsm-encode/src/{encoder,output,probe}.rs.
pub mod Encoder
pub mod Output
pub mod Paths
pub mod Start
