-- ===== src/Storage/Table.antt =====
-- The files of src/storage.c: a table's file is its bytes.
pub mod Defs
pub mod Scan
pub mod Lines
pub mod Index
pub mod Append
pub mod Header
pub mod Rows
