-- ===== src/Generator.antt =====
-- libnos/generator/main.cpp: the plugin of the protocol buffer compiler that writes the clients of a service.
pub mod Text
pub mod Descriptor
pub mod Names
pub mod Clients
pub mod Generate
pub mod Method
mod Examples
