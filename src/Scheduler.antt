-- ===== src/Scheduler.antt =====
-- src/kernel/scheduler.c.
pub mod Select
pub mod Blocking
pub mod Switch
pub mod Tick
