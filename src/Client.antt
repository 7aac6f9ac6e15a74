-- ===== src/Client.antt =====
-- libnos: the C++ clients of a Nugget device.
pub mod Vector
pub mod Host
pub mod Nugget
pub mod Debuggable
pub mod App
pub mod StatusName
pub mod Examples
