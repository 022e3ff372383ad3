-- ===== src/Number.antt =====
-- Integers as text: `strtol` with the range checks of the sources, and `%d`.
pub mod Defs
pub mod Decimal
pub mod Range
pub mod Printed
