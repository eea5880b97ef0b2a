-- ===== src/Config.antt =====
-- src/config.c: the table of options, and the values that the command line gives them.
pub mod Items
pub mod CommandLine
pub mod Again
pub mod File
pub mod FileLines
mod Tests
