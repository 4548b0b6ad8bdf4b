-- ===== src/Expression.antt =====
-- packages/lattik-expression: the SQL expression language.
pub mod DataTypes
pub mod Lexer
pub mod Nodes
pub mod Parser
pub mod Checker
pub mod Emitter
mod Examples
