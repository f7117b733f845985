-- ===== src/Kernel.antt =====
-- The operating system below the packet path: system/*.c.
pub mod Buffer
pub mod Memory
pub mod Process
pub mod Queue
pub mod Semaphore
