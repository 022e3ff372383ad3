-- ===== src/Parser.antt =====
-- src/parser.c, from tokens to statements.
pub mod Defs
pub mod Print
pub mod RoundTrip
pub mod Limits
