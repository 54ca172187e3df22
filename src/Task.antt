-- ===== src/Task.antt =====
-- src/kernel/task.c.
pub mod Table
pub mod Control
