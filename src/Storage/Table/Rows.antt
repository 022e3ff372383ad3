-- ===== src/Storage/Table/Rows.antt =====
-- A table as the list of its rows, and what the functions of src/storage.c do to it.
pub mod File
pub mod Print
pub mod Values
pub mod Keys
pub mod Offsets
pub mod Lookup
pub mod Grow
pub mod Sorted
pub mod Ranges
pub mod Shown
