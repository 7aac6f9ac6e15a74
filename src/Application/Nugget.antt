-- ===== src/Application/Nugget.antt =====
-- nugget/include/app_nugget.h: the main application of the chip.
pub mod Params
pub mod Codes
pub mod Structs
mod Examples
