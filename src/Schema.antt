-- ===== src/Schema.antt =====
-- src/schema.c, from a schema file to the columns of a table.
pub mod Defs
pub mod Valid
pub mod Limits
pub mod Written
pub mod RoundTrip
