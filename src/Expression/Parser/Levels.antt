-- ===== src/Expression/Parser/Levels.antt =====
-- From primary expressions to whole ones, and a run of the parser on a list of tokens
-- (packages/lattik-expression/src/parser/parse.ts, `parseExpr` to `primary`, and `parse`).
use lattik_studio.Prelude.{
  ℕ, zero, suc, ◌+◌, ◌-◌, Bool, true, false, none, some, [], ◌∷◌, leb, ◌&&◌, ◌||◌, if◌then◌else◌,
}
use lattik_studio.Expression.Lexer.Kinds.{
  TokenKind, ident, and_kw, not_kw, is_kw, null_kw, in_kw, between_kw, like_kw, case_kw, cast_kw,
  first_kw, last_kw, true_kw, false_kw, integer, decimal, string_token, minus, star, lparen, rparen,
  kind_eq,
}
use lattik_studio.Expression.Lexer.Scan.{Token}
use lattik_studio.Expression.Nodes.{
  ExprBase, negate, logical_not, Expr, int_literal, float_literal, string_literal, bool_literal,
  null_literal, star_expr, binary, unary, between, in_list, is_null, like,
}
use lattik_studio.Expression.Parser.State.{
  ParserState, Parser, ◌>>=◌, ◌>>◌, pure, out_of_fuel, current, advance, error, check, expect,
  if_match, if_check, matched, look_ahead, located, here, nesting_too_deep, unexpected_token,
}
use lattik_studio.Expression.Parser.Tables.{max_depth, comparison_op}
use lattik_studio.Expression.Parser.Chain.{
  chain, level, join_base, or_op, and_op, addition_op, multiply_op,
}
use lattik_studio.Expression.Parser.Clauses.{expr_list, cast_node, case_node}
use lattik_studio.Expression.Parser.Calls.{call_node, ident_node}

-- A literal, whose token is passed.
abbrev pub literal : (Token → ExprBase → Expr) → Token → Parser Expr
literal node t = do b ← located t; pure (node t b)

-- Error recovery: report the token, pass it, and go on with NULL.
unfoldable pub recover : Parser Expr
recover = do
  t ← here
  error (unexpected_token t.text)
  advance
  b ← located t
  pure (null_literal b)

abbrev pub deeper : ParserState → ParserState
deeper s = record s { depth = s.depth + 1 }

abbrev pub leave : ParserState → ParserState
leave s = record s { depth = s.depth - 1 }

-- `this.depth++; try { ... } finally { this.depth-- }`.
unfoldable pub within {ℓ} : {A : Type ℓ} → Parser A → Parser A
within p s = elim (p (deeper s)) [ none ↦ none | some (a, t) ↦ some (a, leave t) ]

-- The node that stands for an expression nested too deep.
unfoldable pub refuse_depth : Token → Parser Expr
refuse_depth start = do error nesting_too_deep; b ← located start; pure (null_literal b)

-- `this.check(k) || (this.check("NOT") && this.lookAhead(1) === k)`.
abbrev pub negatable : TokenKind → ParserState → Bool
negatable k s = check (k ∷ []) s || (check (not_kw ∷ []) s && kind_eq (look_ahead s.rest) k)

unfoldable pub if_state {ℓ} : {A : Type ℓ} → (ParserState → Bool) → Parser A → Parser A → Parser A
if_state test found other s = if test s then found s else other s

module _ (expr : Parser Expr) where
  unfoldable pub parenthesized : Parser Expr
  parenthesized = do e ← expr; expect rparen; pure e

  -- FIRST and LAST before a parenthesis are function names.
  unfoldable pub keyword_call : ℕ → Parser Expr
  unfolding call_node
  keyword_call f = do t ← advance; call_node expr f t.text t

  unfoldable pub primary : ℕ → Parser Expr
  unfolding case_node cast_node parenthesized keyword_call ident_node recover
  primary f = if_match (integer ∷ []) (literal (λ t b. int_literal b t.text)) (
      if_match (decimal ∷ []) (literal (λ t b. float_literal b t.text)) (
        if_match (string_token ∷ []) (literal (λ t b. string_literal b t.text)) (
          if_match (true_kw ∷ []) (literal (λ t b. bool_literal b true)) (
            if_match (false_kw ∷ []) (literal (λ t b. bool_literal b false)) (
              if_match (null_kw ∷ []) (literal (λ t b. null_literal b)) (
                if_check (case_kw ∷ []) (case_node expr f) (
                  if_check (cast_kw ∷ []) (cast_node expr) (
                    if_match (lparen ∷ []) (λ _. parenthesized)
                      (if_match (star ∷ []) (literal (λ t b. star_expr b none)) (λ s.
                        if check (first_kw ∷ last_kw ∷ []) s && kind_eq (look_ahead s.rest) lparen
                        then keyword_call f s
                        else if_check (ident ∷ []) (ident_node expr f) recover s))))))))))

  -- `unary` behind a minus sign whose depth is admitted.
  unfoldable pub negated : Token → Parser Expr → Parser Expr
  unfolding within
  negated start operand = within do e ← operand; b ← located start; pure (unary b negate e)

  unfoldable pub unary_level : ℕ → ℕ → Parser Expr
  unfolding primary negated
  unary_level f zero = out_of_fuel
  unary_level f (suc g) =
      if_match (minus ∷ [])
        (λ start s.
          if leb max_depth s.depth then refuse_depth start s else negated start (unary_level f g) s)
        (primary f)

  unfoldable pub multiply_level : ℕ → Parser Expr
  unfolding unary_level chain
  multiply_level f = level multiply_op (unary_level f f) f

  unfoldable pub addition_level : ℕ → Parser Expr
  unfolding multiply_level chain
  addition_level f = level addition_op (multiply_level f) f

  unfoldable pub is_null_tail : Token → Expr → Parser Expr
  is_null_tail start left = do
    n ← matched (not_kw ∷ [])
    expect null_kw
    b ← located start
    pure (is_null b left n)

  unfoldable pub between_tail : Token → Expr → ℕ → Parser Expr
  unfolding addition_level
  between_tail start left f = do
    n ← matched (not_kw ∷ [])
    expect between_kw
    low ← addition_level f
    expect and_kw
    high ← addition_level f
    b ← located start
    pure (between b left low high n)

  -- The list in parentheses behind IN.
  unfoldable pub in_values : Token → Expr → ℕ → Bool → Parser Expr
  unfolding expr_list
  in_values start left f n = do
    expect lparen
    values ← expr_list expr f
    expect rparen
    b ← located start
    pure (in_list b left values n)

  unfoldable pub in_tail : Token → Expr → ℕ → Parser Expr
  unfolding in_values
  in_tail start left f = do n ← matched (not_kw ∷ []); expect in_kw; in_values start left f n

  unfoldable pub like_tail : Token → Expr → ℕ → Parser Expr
  unfolding addition_level
  like_tail start left f = do
    n ← matched (not_kw ∷ [])
    expect like_kw
    pattern' ← addition_level f
    b ← located start
    pure (like b left pattern' n)

  -- The comparison operators, which do not associate.
  unfoldable pub compare_tail : Expr → ℕ → Parser Expr
  unfolding addition_level join_base comparison_op
  compare_tail left f s = elim (comparison_op (current s).kind) [
    | none ↦ some (left, s)
    | some o ↦
        (do advance; right ← addition_level f; pure (binary (join_base left right) o left right)) s
  ]

  unfoldable pub predicate_tail : Token → Expr → ℕ → Parser Expr
  unfolding if_state is_null_tail between_tail in_tail like_tail compare_tail
  predicate_tail start left f =
      if_match (is_kw ∷ []) (λ _. is_null_tail start left)
        (if_state (negatable between_kw) (between_tail start left f) (
          if_state (negatable in_kw) (in_tail start left f)
            (if_state (negatable like_kw) (like_tail start left f) (compare_tail left f))))

  -- `comparison`.
  unfoldable pub comparison_level : ℕ → Parser Expr
  unfolding addition_level predicate_tail
  comparison_level f = do start ← here; left ← addition_level f; predicate_tail start left f

  -- `notExpr`, which may nest as deep as the input is long.
  unfoldable pub not_level : ℕ → ℕ → Parser Expr
  unfolding comparison_level
  not_level f zero = out_of_fuel
  not_level f (suc g) =
      if_match (not_kw ∷ [])
        (λ start. do e ← not_level f g; b ← located start; pure (unary b logical_not e))
        (comparison_level f)

  unfoldable pub and_level : ℕ → Parser Expr
  unfolding not_level chain
  and_level f = level and_op (not_level f f) f

  unfoldable pub or_level : ℕ → Parser Expr
  unfolding and_level chain
  or_level f = level or_op (and_level f) f

-- `parseExpr`. Each call behind the first passes a token before it.
unfoldable pub parse_expr : ℕ → Parser Expr
unfolding or_level within
parse_expr zero = out_of_fuel
parse_expr (suc f) = λ s.
    if leb max_depth s.depth
    then (do t ← here; refuse_depth t) s
    else within (or_level (parse_expr f) (suc f)) s
