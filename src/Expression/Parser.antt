-- ===== src/Expression/Parser.antt =====
-- The recursive descent parser (packages/lattik-expression/src/parser/parse.ts).
pub mod State
pub mod Tables
pub mod Chain
pub mod Clauses
pub mod Windows
pub mod Calls
pub mod Levels
pub mod Parse
pub mod Steps
pub mod Rules
pub mod Total
pub mod Laws
