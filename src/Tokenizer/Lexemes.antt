-- ===== src/Tokenizer/Lexemes.antt =====
-- What the tokenizer makes of well-formed lexemes with a space behind each.
pub mod Spelling
pub mod Words
pub mod Readers
pub mod Rounds
pub mod Reading
