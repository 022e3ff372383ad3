-- ===== src/Bptree/Contract.antt =====
-- What src/bptree.c promises its callers: a valid tree is a sorted map from keys to offsets.
pub mod Valid
pub mod Refusal
pub mod Insert
pub mod Search
pub mod Scan
pub mod Memory
