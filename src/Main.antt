-- ===== src/Main.antt =====
-- src/main.c: the frames that are grabbed and written until a signal ends the program.
pub mod Output
pub mod Replacing
pub mod DetectColor
pub mod Loop
pub mod Stopping
pub mod Grabbing
pub mod Serving
mod Tests
