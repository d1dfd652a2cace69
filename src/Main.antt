-- ===== src/Main.antt =====
-- main.c: the program as a whole.
pub mod Program
pub mod Codes
pub mod Clean
pub mod Help
mod Tests
