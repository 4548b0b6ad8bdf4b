-- ===== src/Expression/Emitter/Examples.antt =====
-- Expressions that are printed, and an application of the theorem.
use lattik_studio.Prelude.{◌≡◌, refl, none, Text, some, codes, text_eq, false, ℕ, arith}
use lattik_studio.Expression.Nodes.{
  Expr, ExprBase, column_ref, binary, is_null, unary, and, equal, logical_not, string_literal,
}
use lattik_studio.Expression.Emitter.{emit_sql}
use lattik_studio.Expression.Emitter.Strings.{emit_sql-tokenize, literal_tokens}
use lattik_studio.Expression.Lexer.Scan.{tokenize}

abbrev bare : ExprBase
bare = record { loc = none; data_type = none }

abbrev name : Text → Expr
name x = column_ref bare none x

-- A conjunction that is tested for NULL is printed like one whose second part is.
unparenthesized :
    emit_sql (is_null bare (binary bare and (name (codes "a")) (name (codes "b"))) false)
    ≡ emit_sql (binary bare and (name (codes "a")) (is_null bare (name (codes "b")) false))
unfolding emit_sql text_eq
unparenthesized = refl

-- So is an equation whose left side is a negation like the negation of an equation.
unparenthesized_not :
    emit_sql (binary bare equal (unary bare logical_not (name (codes "a"))) (name (codes "b")))
    ≡ emit_sql (unary bare logical_not (binary bare equal (name (codes "a")) (name (codes "b"))))
unfolding emit_sql text_eq
unparenthesized_not = refl

emit_sql-tokenize_example :
    (line : ℕ) × (col : ℕ) × (tokenize (emit_sql (string_literal bare (codes "it's")))
      ≡ some (literal_tokens (codes "it's") line col))
emit_sql-tokenize_example = emit_sql-tokenize bare (codes "it's") (omega arith)
