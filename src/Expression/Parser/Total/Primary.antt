-- ===== src/Expression/Parser/Total/Primary.antt =====
-- Primary expressions and signs end, if whole expressions do
-- (packages/lattik-expression/src/parser/parse.ts, `parseExpr` to `primary`).
use lattik_studio.Prelude.{ℕ, zero, suc, ◌≤◌, [], ◌∷◌, refl, arith, length, leb, ◌&&◌}
use lattik_studio.Expression.Lexer.Kinds.{
  TokenKind, kind_eq, lparen, rparen, star, ident, integer, decimal, string_token, true_kw,
  false_kw, null_kw, case_kw, cast_kw, first_kw, last_kw, minus,
}
use lattik_studio.Expression.Lexer.Scan.{Token}
use lattik_studio.Expression.Nodes.{Expr, unary, negate, ExprBase}
use lattik_studio.Expression.Parser.State.{
  Parser, ParserState, expect, located, current, if_match, check, look_ahead,
}
use lattik_studio.Expression.Parser.Tables.{max_depth}
use lattik_studio.Expression.Parser.Steps.{
  Step-here, Ends, Ends-pure, Ends-if, Ends-bind, Ends-then,
}
use lattik_studio.Expression.Parser.Rules.{
  Ends-pass, Ends-match, Ends-check, Ends-seq, EndsBelow, Closed-pos, In, In-Step, In-passed,
  NotEof, expect-Ends, located-Ends, mem_kind-NotEof,
}
use lattik_studio.Expression.Parser.Total.Clauses.{case_node-Ends, cast_node-Ends}
use lattik_studio.Expression.Parser.Total.Calls.{call_node-Ends, ident_node-Ends}
use lattik_studio.Expression.Parser.Levels.{
  literal, parenthesized, keyword_call, primary, negated, unary_level,
}
use lattik_studio.Expression.Parser.Total.Levels.{
  literal-Ends, recover-Ends, refuse_depth-Ends, within-Ends,
}

module _ (expr : Parser Expr) (n : ℕ) (total : EndsBelow n expr) where
  parenthesized-Ends : EndsBelow n (parenthesized expr)
  unfolding parenthesized
  parenthesized-Ends s i = Ends-seq expr _ i (total s i) λ e t it _.
      Ends-then (expect rparen) _ (expect-Ends rparen t it.closed) λ u su. Ends-pure e su.closed

  keyword_call-Ends :
      (s : ParserState) → In (suc n) s → NotEof (current s).kind → Ends s (keyword_call expr n s)
  unfolding keyword_call
  keyword_call-Ends s i ne =
      Ends-pass _ i.closed ne
        λ tok t st lt. call_node-Ends expr n total tok.text tok t (In-passed i st lt)

  -- A literal that the current token is.
  literal_match-Ends :
      (k : TokenKind) (node : Token → ExprBase → Expr) (other : Parser Expr)
      → NotEof k
      → EndsBelow (suc n) other
      → EndsBelow (suc n) (if_match (k ∷ []) (literal node) other)
  literal_match-Ends k node other ne h s i =
      Ends-match (k ∷ []) _ _ i.closed (ne, tt)
        (λ tok t st _. literal-Ends node tok t (Step-here t st.closed)) (h s i)

  primary-Ends : EndsBelow (suc n) (primary expr n)
  unfolding primary kind_eq
  primary-Ends = literal_match-Ends integer _ _ refl (
      literal_match-Ends decimal _ _ refl (
        literal_match-Ends string_token _ _ refl (
          literal_match-Ends true_kw _ _ refl (
            literal_match-Ends false_kw _ _ refl (
              literal_match-Ends null_kw _ _ refl λ s i.
                Ends-check (case_kw ∷ []) _ _ (refl, tt) (case_node-Ends expr n total s i)
                  (Ends-check (cast_kw ∷ []) _ _ (refl, tt) (cast_node-Ends expr n total s i)
                    (Ends-match (lparen ∷ []) _ _ i.closed (refl, tt)
                      (λ _ t st lt. parenthesized-Ends t (In-passed i st lt))
                      (literal_match-Ends star _ _ refl
                        (λ t it.
                          Ends-if
                            (check (first_kw ∷ last_kw ∷ []) t
                              && kind_eq (look_ahead t.rest) lparen)
                            (λ h. keyword_call-Ends t it (
                              mem_kind-NotEof (current t).kind (first_kw ∷ last_kw ∷ [])
                                (refl, (refl, tt)) (ground arith)))
                            (λ _.
                              Ends-check (ident ∷ []) _ _ (refl, tt)
                                (ident_node-Ends expr n total t it) (recover-Ends t it)))
                        s i))))))))

  negated-Ends :
      (start : Token) (operand : Parser Expr) {m : ℕ}
      → EndsBelow m operand
      → EndsBelow m (negated expr start operand)
  unfolding negated
  negated-Ends start operand h = within-Ends _ λ s i. Ends-seq operand _ i (h s i) λ e t it _.
      Ends-bind (located start) _ (located-Ends start t it.closed)
        λ b u su. Ends-pure (unary b negate e) su.closed

  pub unary_level-Ends :
      (g : ℕ) (s : ParserState) → In (suc n) s → length s.rest ≤ g → Ends s (unary_level expr n g s)
  unfolding unary_level kind_eq
  unary_level-Ends zero s i h = absurd (omega (arith, Closed-pos i.closed))
  unary_level-Ends (suc g) s i h =
      Ends-match (minus ∷ []) _ _ i.closed (refl, tt)
        (λ start t st lt.
          Ends-if (leb max_depth t.depth) (λ _. refuse_depth-Ends start t (In-Step i st))
            (λ _.
              negated-Ends start (unary_level expr n g) {m = length s.rest}
                (λ u iu.
                  unary_level-Ends g u
                    (record { closed = iu.closed; fewer = omega (arith, iu.fewer, i.fewer) })
                    (omega (arith, iu.fewer)))
                t (record { closed = st.closed; fewer = lt })))
        (primary-Ends s i)
