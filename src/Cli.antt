-- ===== src/Cli.antt =====
-- cli_args.c and main.c: the options, and what the program does with them.
pub mod Numbers
pub mod Args
pub mod Usage
pub mod Checked
pub mod Accepted
mod Tests
