-- ===== src/Strings.antt =====
-- lib/string/string.c: searching a buffer, and bytes as hexadecimal text. Text is a list of characters.
pub mod Pattern
pub mod Digits
mod Tests
