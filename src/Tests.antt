-- ===== src/Tests.antt =====
-- The theorems at concrete inputs.
mod Device
mod Agent
mod Cli
mod Render
