-- ===== src/Expression/Parser/Total.antt =====
-- The parser ends on every list of tokens that ends with the end of the input.
pub mod Clauses
pub mod Windows
pub mod Calls
pub mod Levels
pub mod Primary
pub mod Predicates
