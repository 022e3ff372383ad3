-- ===== src/Executor/Coherent.antt =====
-- The invariant between a table's file and what the executor keeps about the table.
pub mod Defs
pub mod States
pub mod Open
pub mod Build
pub mod Insert
pub mod Program
pub mod Unregistered
