-- ===== src/Interactive.antt =====
-- mode_interactive.c: a prompt beside the connection.
pub mod Commands
pub mod Words
pub mod Pipe
pub mod Handler
pub mod Terminal
pub mod Completions
pub mod Sound
pub mod Steps
pub mod Safe
pub mod TypedKeys
pub mod Typed
pub mod Ends
pub mod Reads
pub mod Lines
pub mod Delivered
pub mod Windows
pub mod Unread
pub mod Agrees
pub mod PipeAgrees
mod Tests
mod PlatformTests
