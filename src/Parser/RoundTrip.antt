-- ===== src/Parser/RoundTrip.antt =====
-- The parser on the tokens that a program is written with.
pub mod Readers
pub mod Program
