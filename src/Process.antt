-- ===== src/Process.antt =====
-- client/process.c: the client's books on a traced process.
pub mod State
pub mod Resolv
pub mod Stacks
pub mod Blocks
pub mod Handlers
pub mod Unmap
pub mod Realloc
pub mod Scan
pub mod Tests
mod Examples
pub mod Search
pub mod Compare
pub mod Life
pub mod Reset
pub mod Report
pub mod LeakScan
pub mod Maps
pub mod Unreached
pub mod Books
