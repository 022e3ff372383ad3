-- ===== src/Bptree/Order.antt =====
-- The search order of the tree, and that insertion keeps it and refines the sorted list.
pub mod Bounds
pub mod Lists
pub mod Nodes
pub mod Split
pub mod Insert
pub mod Descent
pub mod Ranges
