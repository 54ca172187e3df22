-- ===== src/Ipc.antt =====
-- src/kernel/ipc.c.
pub mod Objects
pub mod Semaphore
pub mod Mutex
pub mod Buffers
pub mod Queue
pub mod EventGroup
pub mod Waiting
