-- ===== src/Citadel.antt =====
-- libnos_datagram/citadel.c: the driver that brings datagrams to the chip through the kernel.
pub mod System
pub mod Datagram
pub mod Control
pub mod Host
pub mod Threads
pub mod Chip
mod Examples
