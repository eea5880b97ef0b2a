-- ===== src/Utils.antt =====
-- src/utils.c: blanks, trimming and base64.
pub mod Base64
pub mod Decode
pub mod Trim
pub mod Trimmed
mod Tests
