-- ===== src/Client.antt =====
-- client/client.c: the client's side of the protocol.
pub mod Config
pub mod Pids
pub mod Dispatch
pub mod Handled
pub mod Reach
mod Tests
