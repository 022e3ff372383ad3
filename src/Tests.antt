-- ===== src/Tests.antt =====
-- Runs of the model, and each theorem at an input where its hypotheses hold.
mod Trees
mod Tokens
mod Statements
mod Schemas
mod Csv
mod Files
mod Scans
mod Sessions
mod Refusals
mod Runs
