-- ===== src/Bptree/Shape.antt =====
-- The shape of the tree: all leaves at one depth, and no node below the root too empty or too full.
pub mod Nodes
pub mod Insert
pub mod Height
