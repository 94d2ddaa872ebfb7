-- ===== src/Examples.antt =====
-- The theorems at concrete inputs.
mod Codec
mod Files
mod Control
mod Capture
mod Service
mod Remote
