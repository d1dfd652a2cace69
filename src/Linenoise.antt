-- ===== src/Linenoise.antt =====
-- src/linenoise.c: the line editor.
pub mod Memory
pub mod State
pub mod History
pub mod Keys
pub mod Feed
pub mod Shows
pub mod Edits
pub mod Moves
pub mod Recall
pub mod Ready
pub mod Safe
pub mod Total
pub mod Begun
pub mod Strings
pub mod Plain
pub mod Typing
pub mod Line
pub mod Zipper
pub mod Controls
pub mod Sequences
pub mod Refines
pub mod Heap
pub mod Blocks
pub mod OwnedStrings
pub mod OwnedHistory
pub mod Owned
pub mod Recorded
pub mod Cooked
mod Tests
mod MoreTests
