-- ===== src/Executor.antt =====
-- src/executor.c: statements are run on the tables of a directory.
pub mod State
pub mod Values
pub mod Insert
pub mod Select
pub mod Coherent
pub mod Lookup
pub mod Checks
pub mod Range
