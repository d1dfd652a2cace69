-- ===== src/Oneshot.antt =====
-- mode_oneshot.c: one payload is sent, and the answer is printed.
pub mod Payload
pub mod Prepared
pub mod Stdout
pub mod Loop
pub mod Kept
pub mod Mode
pub mod Received
pub mod Wrote
pub mod Echoed
pub mod Printed
pub mod Analysed
pub mod Windows
pub mod Silent
pub mod Forget
pub mod Agrees
pub mod Ends
pub mod Returns
mod Tests
mod WriteTests
