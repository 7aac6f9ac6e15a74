-- ===== src/Application.antt =====
-- nugget/include/application.h: what the two sides of the transport protocol agree on.
pub mod AppId
pub mod Command
pub mod Status
pub mod AppStatus
pub mod Events
pub mod Nugget
pub mod Interfaces
