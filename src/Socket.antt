-- ===== src/Socket.antt =====
-- src/socket_client.c and the error tests of src/compat.c.
pub mod Codes
pub mod Windows
pub mod Write
pub mod Sent
pub mod Read
pub mod Frames
pub mod Connect
pub mod Leaks
mod Tests
