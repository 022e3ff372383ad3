-- ===== src/Bptree.antt =====
-- src/bptree.c: the in-memory B+ tree from primary keys to row offsets.
pub mod Node
pub mod Insert
pub mod Search
pub mod Spec
pub mod Order
pub mod Shape
pub mod Chain
pub mod Contract
