-- ===== src/Session.antt =====
-- src/codelldb/src/debug_session.rs: the debug session, which answers the requests of the client and
-- follows the events of the process.
pub mod Filter
pub mod Tokens
pub mod Cancelling
pub mod CancelRequest
pub mod Memory
pub mod Sources
pub mod Running
pub mod Resuming
pub mod View
pub mod Stopping
pub mod Cleared
pub mod Watch
pub mod WatchIds
mod WatchTests
mod Tests
mod RunTests
