-- ===== src/Transport.antt =====
-- libnos_transport/transport.c, function by function, and what is proved of each.
pub mod Context
pub mod Script
pub mod Retry
pub mod Status
pub mod Ready
pub mod Send
pub mod Poll
pub mod Receive
pub mod Call
pub mod Chip
pub mod Frame
mod Precomputed
mod Examples
