-- ===== src/Parser/Limits.antt =====
-- What the parser accepts stays within the limits of include/sqlproc.h.
pub mod Readers
pub mod Statements
