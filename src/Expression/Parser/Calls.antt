-- ===== src/Expression/Parser/Calls.antt =====
-- Calls and names (packages/lattik-expression/src/parser/parse.ts, `identExpr` and
-- `functionCallExpr`).
use lattik_studio.Prelude.{
  ℕ, false, none, some, [], ◌∷◌, Text, codes, text_eq, to_upper, mem_text, if◌then◌else◌,
}
use lattik_studio.Expression.Lexer.Kinds.{ident, distinct_kw, star, lparen, rparen, dot}
use lattik_studio.Expression.Lexer.Scan.{Token}
use lattik_studio.Expression.Nodes.{
  ExprBase, Expr, column_ref, star_expr, function_call, aggregate_call, Exprs, no_exprs, expr_cons,
}
use lattik_studio.Expression.Parser.State.{
  Parser, ◌>>=◌, ◌>>◌, pure, advance, expect, if_match, if_check, matched, located,
}
use lattik_studio.Expression.Parser.Tables.{known_aggregates}
use lattik_studio.Expression.Parser.Clauses.{expr_list}
use lattik_studio.Expression.Parser.Windows.{filter_clause, window_clause}

abbrev pub no_base : ExprBase
no_base = record { loc = none; data_type = none }

-- The parts take the parser of whole expressions, which they call behind at least one token,
-- and fuel for their loops.
module _ (expr : Parser Expr) where
  -- COUNT(*), at the star.
  unfoldable pub count_star : ℕ → Text → Token → Parser Expr
  unfolding filter_clause window_clause
  count_star f name start = do
    advance
    expect rparen
    filter ← filter_clause expr
    b ← located start
    window_clause expr f
        (aggregate_call b name (expr_cons (star_expr no_base none) no_exprs) false filter) start

  unfoldable pub call_args : ℕ → Parser Exprs
  unfolding expr_list
  call_args f = if_check (rparen ∷ []) (pure no_exprs) (expr_list expr f)

  unfoldable pub plain_call : ℕ → Text → Token → Parser Expr
  unfolding filter_clause window_clause call_args
  plain_call f name start = do
    distinct ← matched (distinct_kw ∷ [])
    args ← call_args f
    expect rparen
    if mem_text name known_aggregates
        then (do
          filter ← filter_clause expr
          b ← located start
          window_clause expr f (aggregate_call b name args distinct filter) start)
        else (do b ← located start; window_clause expr f (function_call b name args) start)

  -- `functionCallExpr`, at the parenthesis; the name is upper-cased first.
  unfoldable pub call_node : ℕ → Text → Token → Parser Expr
  unfolding count_star plain_call
  call_node f name start = do
    expect lparen
    let upper = to_upper name
    if text_eq upper (codes "COUNT")
        then if_check (star ∷ []) (count_star f upper start) (plain_call f upper start)
        else plain_call f upper start

  -- `identExpr`, at a name.
  unfoldable pub ident_node : ℕ → Parser Expr
  unfolding call_node
  ident_node f = do
    t ← advance
    if_check (lparen ∷ []) (call_node f t.text t) (
        if_match (dot ∷ [])
          (λ _.
            if_match (star ∷ []) (λ _. do b ← located t; pure (star_expr b (some t.text)))
              (do c ← expect ident; b ← located t; pure (column_ref b (some t.text) c.text)))
          (do b ← located t; pure (column_ref b none t.text)))
