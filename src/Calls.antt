-- ===== src/Calls.antt =====
-- Sequences of kernel calls.
pub mod Links
pub mod Wakes
pub mod Messages
pub mod Tasks
pub mod Safety
