-- ===== src/Expression/Checker.antt =====
-- The type checker (packages/lattik-expression/src/checker/check.ts).
pub mod Functions
pub mod Columns
pub mod Attach
pub mod Aggregates
pub mod Infer
pub mod Again
pub mod Typed
