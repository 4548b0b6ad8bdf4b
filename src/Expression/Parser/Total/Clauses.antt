-- ===== src/Expression/Parser/Total/Clauses.antt =====
-- Lists, CAST, CASE, FILTER and OVER end, if whole expressions do
-- (packages/lattik-expression/src/parser/parse.ts, `tryParseFilter` to `exprList`).
use lattik_studio.Prelude.{
  ℕ, zero, suc, ◌≤◌, [], ◌∷◌, refl, arith, length, Option-cases, inl, inr, leb, ◌==◌,
}
use lattik_studio.Expression.Lexer.Kinds.{
  kind_eq, comma, when_kw, else_kw, lparen, rparen, as_kw, end_kw, then_kw,
}
use lattik_studio.Expression.Nodes.{
  Expr, Exprs, Whens, no_exprs, expr_cons, absent, no_whens, case_expr, cast, present,
}
use lattik_studio.Expression.Parser.State.{
  Parser, ParserState, pure, error, expect, located, current, expected_type, list_too_long,
  too_many_whens, advance, no_when_clause,
}
use lattik_studio.Expression.Parser.Tables.{
  type_of_token, count_exprs, push_expr, max_list_length, max_when_clauses, count_whens, push_when,
}
use lattik_studio.Expression.Parser.Chain.{parse_type_name}
use lattik_studio.Expression.Parser.Clauses.{
  list_rest, expr_list, cast_node, whens_rest, optional, case_node, no_when_error, case_operand,
  case_else,
}
use lattik_studio.Expression.Parser.Steps.{Step-le, Ends, Ends-pure, Ends-bind, Ends-then}
use lattik_studio.Expression.Parser.Rules.{
  Ends-pass, Ends-match, Ends-check, Ends-seq, EndsBelow, Closed-pos, Ends-choose, In, In-Step,
  In-passed, NotEof, advance-Ends, error-Ends, expect-Ends, located-Ends,
}

pub parse_type_name-Ends : {n : ℕ} → EndsBelow n parse_type_name
unfolding parse_type_name
parse_type_name-Ends s i = elim (Option-cases (type_of_token (current s).kind)) [
  | inl e ↦
      rw (e, parse_type_name)
        (Ends-then (error (expected_type (current s).text)) _ (error-Ends _ s i.closed)
          λ t st. Ends-then advance _ (advance-Ends t st.closed) λ u su. Ends-pure _ su.closed)
  | inr (k, e) ↦
      rw (e, parse_type_name)
        (Ends-then advance (pure k) (advance-Ends s i.closed) λ t st. Ends-pure k st.closed)
]

module _ (expr : Parser Expr) (n : ℕ) (total : EndsBelow n expr) where
  pub list_rest-Ends :
      (g : ℕ) (es : Exprs) (s : ParserState)
      → In n s
      → length s.rest ≤ g
      → Ends s (list_rest expr g es s)
  unfolding list_rest kind_eq
  list_rest-Ends zero es s i h = absurd (omega (arith, Closed-pos i.closed))
  list_rest-Ends (suc g) es s i h =
      Ends-match (comma ∷ []) _ _ i.closed (refl, tt)
        (λ tok t st lt.
          Ends-choose (leb max_list_length (count_exprs es)) _ _
            (Ends-then (error list_too_long) _ (error-Ends _ t st.closed)
              λ u su. Ends-pure es su.closed)
            (Ends-seq expr _ (In-Step i st) (total t (In-Step i st))
              λ e u iu su. list_rest-Ends g (push_expr es e) u iu (omega (arith, Step-le su))))
        (Ends-pure es i.closed)

  pub expr_list-Ends : EndsBelow n (expr_list expr n)
  unfolding expr_list
  expr_list-Ends s i =
      Ends-seq expr _ i (total s i)
        λ e t it st. list_rest-Ends n (expr_cons e no_exprs) t it (omega (arith, it.fewer))

  pub cast_node-Ends :
      (s : ParserState) → In (suc n) s → NotEof (current s).kind → Ends s (cast_node expr s)
  unfolding cast_node
  cast_node-Ends s i ne = Ends-pass _ i.closed ne λ start t st lt.
      let it = In-passed i st lt in
      Ends-then (expect lparen) _ (expect-Ends lparen t it.closed) λ u su.
        Ends-seq expr _ (In-Step it su) (total u (In-Step it su)) λ e v iv sv.
          Ends-then (expect as_kw) _ (expect-Ends as_kw v iv.closed) λ w sw.
            Ends-bind parse_type_name _ (parse_type_name-Ends w (In-Step iv sw)) λ ty x sx.
              Ends-then (expect rparen) _ (expect-Ends rparen x sx.closed) λ y sy.
                Ends-bind (located start) _ (located-Ends start y sy.closed)
                  λ b z sz. Ends-pure (cast b e ty) sz.closed

  pub whens_rest-Ends :
      (g : ℕ) (ws : Whens) (s : ParserState)
      → In n s
      → length s.rest ≤ g
      → Ends s (whens_rest expr g ws s)
  unfolding whens_rest kind_eq
  whens_rest-Ends zero ws s i h = absurd (omega (arith, Closed-pos i.closed))
  whens_rest-Ends (suc g) ws s i h =
      Ends-match (when_kw ∷ []) _ _ i.closed (refl, tt)
        (λ tok t st lt.
          let it = In-Step i st in
          Ends-choose (leb max_when_clauses (count_whens ws)) _ _
            (Ends-then (error too_many_whens) _ (error-Ends _ t st.closed)
              λ u su. Ends-pure ws su.closed)
            (Ends-seq expr _ it (total t it) λ c u iu su.
              Ends-then (expect then_kw) _ (expect-Ends then_kw u iu.closed) λ v sv.
                let iv = In-Step iu sv in
                Ends-seq expr _ iv (total v iv) λ r w iw sw.
                  whens_rest-Ends g (push_when ws c r) w iw
                    (omega (arith, Step-le su, Step-le sv, Step-le sw))))
        (Ends-pure ws i.closed)

  optional-Ends : EndsBelow n (optional expr)
  unfolding optional
  optional-Ends s i = Ends-seq expr _ i (total s i) λ e t it st. Ends-pure (present e) it.closed

  no_when_error-Ends : (ws : Whens) → EndsBelow n (no_when_error expr ws)
  unfolding no_when_error
  no_when_error-Ends ws s i =
      Ends-choose (count_whens ws == 0) _ _ (error-Ends no_when_clause s i.closed)
        (Ends-pure tt i.closed)

  case_operand-Ends : EndsBelow n (case_operand expr)
  unfolding case_operand kind_eq
  case_operand-Ends s i =
      Ends-check (when_kw ∷ []) _ _ (refl, tt) (λ _. Ends-pure absent i.closed) (optional-Ends s i)

  case_else-Ends : EndsBelow n (case_else expr)
  unfolding case_else kind_eq
  case_else-Ends s i =
      Ends-match (else_kw ∷ []) _ _ i.closed (refl, tt) (λ _ t st _. optional-Ends t (In-Step i st))
        (Ends-pure absent i.closed)

  pub case_node-Ends :
      (s : ParserState) → In (suc n) s → NotEof (current s).kind → Ends s (case_node expr n s)
  unfolding case_node
  case_node-Ends s i ne = Ends-pass _ i.closed ne λ start t st lt.
      let it = In-passed i st lt in
      Ends-seq (case_operand expr) _ it (case_operand-Ends t it) λ operand u iu su.
        Ends-seq (whens_rest expr n no_whens) _ iu
          (whens_rest-Ends n no_whens u iu (omega (arith, iu.fewer)))
          λ ws v iv sv. Ends-then (no_when_error expr ws) _ (no_when_error-Ends ws v iv) λ w sw.
            let iw = In-Step iv sw in
            Ends-seq (case_else expr) _ iw (case_else-Ends w iw) λ other x ix sx.
              Ends-then (expect end_kw) _ (expect-Ends end_kw x ix.closed) λ y sy.
                Ends-bind (located start) _ (located-Ends start y sy.closed)
                  λ b z sz. Ends-pure (case_expr b operand ws other) sz.closed
