-- ===== src/Hsm.antt =====
-- hsm_decoder.c: the decoder of payShield responses.
pub mod Names
pub mod Response
pub mod Frames
pub mod Fits
pub mod Analysis
pub mod Report
pub mod Whole
mod Tests
