-- ===== src/Server.antt =====
-- The traced side: task.c, library.c, breakpoint.c and common.c.
pub mod PidHash
pub mod Library
pub mod FindBlock
pub mod ProcMemory
pub mod Breakpoint
pub mod Events
pub mod Report
pub mod Step
pub mod Arm
mod Tests
