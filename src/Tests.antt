-- ===== src/Tests.antt =====
-- Concrete data, and the theorems at concrete inputs.
pub mod Data
pub mod Packets
pub mod Parts
pub mod Clients
pub mod Machines
pub mod Messages
pub mod Examples
pub mod Generated
