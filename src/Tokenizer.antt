-- ===== src/Tokenizer.antt =====
-- src/tokenizer.c: SQL text to tokens.
pub mod Defs
pub mod Total
pub mod Lexemes
