-- ===== src/Storage/Csv.antt =====
-- The CSV codec of src/storage.c.
pub mod Defs
pub mod RoundTrip
pub mod Bounds
