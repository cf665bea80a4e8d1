-- ===== src/Device.antt =====
-- The device layer: the command set, the framing, the status channel and the driver.
pub mod Protocol
pub mod Commands
pub mod Session
pub mod Framing
pub mod Decode
pub mod Tags
pub mod Parser
pub mod State
pub mod Feedback
pub mod Errors
pub mod Raster
pub mod Transport
pub mod Rfcomm
pub mod Sockets
pub mod Ble
pub mod Driver
pub mod Waits
pub mod Patterns
