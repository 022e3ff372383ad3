-- ===== src/App.antt =====
-- src/app.c: the arguments of the program, and SQL text through all stages.
pub mod Arguments
pub mod Run
pub mod Modes
pub mod Session
pub mod Interactive
