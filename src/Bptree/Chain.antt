-- ===== src/Bptree/Chain.antt =====
-- The `next` pointers link the leaves from left to right, and insertion keeps that.
pub mod Segments
pub mod Insert
pub mod Addresses
