-- ===== src/Console.antt =====
-- The attributes of the terminal: src/signal_handler.c, and the raw mode of src/linenoise.c.
pub mod Raw
pub mod Restored
pub mod Windows
pub mod ModesRestored
mod Tests
