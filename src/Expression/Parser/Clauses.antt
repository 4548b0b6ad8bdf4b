-- ===== src/Expression/Parser/Clauses.antt =====
-- Lists, CAST and CASE (packages/lattik-expression/src/parser/parse.ts, `caseExpr` to `exprList`).
use lattik_studio.Prelude.{ℕ, zero, suc, [], ◌∷◌, leb, ◌==◌, if◌then◌else◌}
use lattik_studio.Expression.Lexer.Kinds.{
  when_kw, then_kw, else_kw, end_kw, as_kw, lparen, rparen, comma,
}
use lattik_studio.Expression.Lexer.Scan.{Token}
use lattik_studio.Expression.Nodes.{
  Expr, case_expr, cast, Exprs, no_exprs, expr_cons, OptExpr, absent, present, Whens, no_whens,
}
use lattik_studio.Expression.Parser.State.{
  Parser, ◌>>=◌, ◌>>◌, pure, out_of_fuel, advance, error, expect, if_match, if_check, located,
  too_many_whens, no_when_clause, list_too_long,
}
use lattik_studio.Expression.Parser.Tables.{
  max_list_length, max_when_clauses, push_expr, count_exprs, push_when, count_whens,
}
use lattik_studio.Expression.Parser.Chain.{parse_type_name}

-- The parts take the parser of whole expressions, which they call behind at least one token,
-- and fuel for their loops.
module _ (expr : Parser Expr) where
  unfoldable pub list_rest : ℕ → Exprs → Parser Exprs
  list_rest zero es = out_of_fuel
  list_rest (suc f) es =
      if_match (comma ∷ [])
        (λ _.
          if leb max_list_length (count_exprs es)
          then (do error list_too_long; pure es)
          else (do e ← expr; list_rest f (push_expr es e)))
        (pure es)

  unfoldable pub expr_list : ℕ → Parser Exprs
  unfolding list_rest
  expr_list f = do e ← expr; list_rest f (expr_cons e no_exprs)

  unfoldable pub cast_tail : Token → Parser Expr
  unfolding parse_type_name
  cast_tail start = do
    expect lparen
    e ← expr
    expect as_kw
    t ← parse_type_name
    expect rparen
    b ← located start
    pure (cast b e t)

  -- `castExpr`, at the token CAST.
  unfoldable pub cast_node : Parser Expr
  unfolding cast_tail
  cast_node = do start ← advance; cast_tail start

  -- The loop over the WHEN clauses.
  unfoldable pub whens_rest : ℕ → Whens → Parser Whens
  whens_rest zero ws = out_of_fuel
  whens_rest (suc f) ws =
      if_match (when_kw ∷ [])
        (λ _.
          if leb max_when_clauses (count_whens ws)
          then (do error too_many_whens; pure ws)
          else (do c ← expr; expect then_kw; r ← expr; whens_rest f (push_when ws c r)))
        (pure ws)

  unfoldable pub optional : Parser OptExpr
  optional = do e ← expr; pure (present e)

  unfoldable pub no_when_error : Whens → Parser (Unit {0})
  no_when_error ws = if count_whens ws == 0 then error no_when_clause else pure tt

  -- The operand of a simple CASE, and the ELSE branch.
  unfoldable pub case_operand : Parser OptExpr
  unfolding optional
  case_operand = if_check (when_kw ∷ []) (pure absent) optional

  unfoldable pub case_else : Parser OptExpr
  unfolding optional
  case_else = if_match (else_kw ∷ []) (λ _. optional) (pure absent)

  -- `caseExpr`, at the token CASE.
  unfoldable pub case_node : ℕ → Parser Expr
  unfolding whens_rest case_operand case_else no_when_error
  case_node f = do
    start ← advance
    operand ← case_operand
    ws ← whens_rest f no_whens
    no_when_error ws
    other ← case_else
    expect end_kw
    b ← located start
    pure (case_expr b operand ws other)
