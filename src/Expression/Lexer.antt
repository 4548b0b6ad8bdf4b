-- ===== src/Expression/Lexer.antt =====
-- The tokenizer (packages/lattik-expression/src/parser/lexer.ts).
pub mod Kinds
pub mod Scan
pub mod Positions
pub mod Operators
pub mod Rounds
pub mod Total
