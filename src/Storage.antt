-- ===== src/Storage.antt =====
-- src/storage.c, the CSV files.
pub mod Csv
pub mod Table
