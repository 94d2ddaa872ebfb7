-- ===== src/Ipc.antt =====
-- The control interface: crates/bsm-ipc.
pub mod Commands
pub mod Dispatcher
pub mod Meter
pub mod Shutdown
pub mod Tasks
pub mod Text
pub mod Server
