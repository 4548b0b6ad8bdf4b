-- ===== src/Expression/Parser/Total/Predicates.antt =====
-- Arithmetic, predicates and comparisons end, if whole expressions do
-- (packages/lattik-expression/src/parser/parse.ts, `parseExpr` to `primary`).
use lattik_studio.Prelude.{
  ℕ, zero, suc, ◌≤◌, [], ◌∷◌, ◌≡◌, refl, arith, length, leb, true, false, Bool, Option-cases,
  Bool-cases, inl, inr,
}
use lattik_studio.Expression.Lexer.Kinds.{
  kind_eq, lparen, rparen, null_kw, not_kw, is_kw, between_kw, in_kw, like_kw, and_kw,
}
use lattik_studio.Expression.Lexer.Scan.{Token}
use lattik_studio.Expression.Nodes.{
  Expr, unary, binary, is_null, between, in_list, like, logical_not,
}
use lattik_studio.Expression.Parser.State.{
  Parser, ParserState, expect, located, current, matched, check, here,
}
use lattik_studio.Expression.Parser.Tables.{comparison_op, max_depth}
use lattik_studio.Expression.Parser.Chain.{
  level, multiply_op, addition_op, and_op, or_op, join_base,
}
use lattik_studio.Expression.Parser.Clauses.{expr_list}
use lattik_studio.Expression.Parser.Steps.{
  Step-here, Ends, Ends-pure, Ends-if, Ends-bind, Ends-then,
}
use lattik_studio.Expression.Parser.Rules.{
  Ends-pass, Ends-match, Ends-seq, EndsBelow, Closed-pos, In, In-Step, In-passed, expect-Ends,
  located-Ends, matched-Ends, here-Ends, Ends-known, matched_yes, matched_no, expect-passes,
}
use lattik_studio.Expression.Parser.Total.Clauses.{expr_list-Ends}
use lattik_studio.Expression.Parser.Levels.{
  negatable, if_state, unary_level, multiply_level, addition_level, is_null_tail, between_tail,
  in_tail, in_values, like_tail, compare_tail, predicate_tail, comparison_level, not_level,
  and_level, or_level, parse_expr,
}
use lattik_studio.Expression.Parser.Total.Levels.{
  refuse_depth-Ends, level-Ends, multiply_op-NotEof, addition_op-NotEof, and_op-NotEof,
  or_op-NotEof, comparison_op-NotEof, within-Ends,
}
use lattik_studio.Expression.Parser.Total.Primary.{unary_level-Ends}

module _ (expr : Parser Expr) (n : ℕ) (total : EndsBelow n expr) where
  multiply_level-Ends : EndsBelow (suc n) (multiply_level expr n)
  unfolding multiply_level
  multiply_level-Ends =
      level-Ends multiply_op (unary_level expr n n) n multiply_op-NotEof
        λ s i. unary_level-Ends expr n total n s i (omega (arith, i.fewer))

  addition_level-Ends : EndsBelow (suc n) (addition_level expr n)
  unfolding addition_level
  addition_level-Ends =
      level-Ends addition_op (multiply_level expr n) n addition_op-NotEof multiply_level-Ends

  not_before-Ends : EndsBelow (suc n) (matched (not_kw ∷ []))
  unfolding kind_eq
  not_before-Ends s i = matched-Ends (not_kw ∷ []) s i.closed (refl, tt)

  is_null_tail-Ends :
      (start : Token) (left : Expr) → EndsBelow (suc n) (is_null_tail expr start left)
  unfolding is_null_tail
  is_null_tail-Ends start left s i =
      Ends-seq (matched (not_kw ∷ [])) _ i (not_before-Ends s i) λ m t it _.
        Ends-then (expect null_kw) _ (expect-Ends null_kw t it.closed) λ u su.
          Ends-bind (located start) _ (located-Ends start u su.closed)
            λ b v sv. Ends-pure (is_null b left m) sv.closed

  between_tail-Ends :
      (start : Token) (left : Expr) → EndsBelow (suc n) (between_tail expr start left n)
  unfolding between_tail
  between_tail-Ends start left s i =
      Ends-seq (matched (not_kw ∷ [])) _ i (not_before-Ends s i) λ m t it _.
        Ends-then (expect between_kw) _ (expect-Ends between_kw t it.closed) λ u su.
          let iu = In-Step it su in
          Ends-seq (addition_level expr n) _ iu (addition_level-Ends u iu) λ low v iv _.
            Ends-then (expect and_kw) _ (expect-Ends and_kw v iv.closed) λ w sw.
              let iw = In-Step iv sw in
              Ends-seq (addition_level expr n) _ iw (addition_level-Ends w iw) λ high x ix _.
                Ends-bind (located start) _ (located-Ends start x ix.closed)
                  λ b y sy. Ends-pure (between b left low high m) sy.closed

  like_tail-Ends : (start : Token) (left : Expr) → EndsBelow (suc n) (like_tail expr start left n)
  unfolding like_tail
  like_tail-Ends start left s i =
      Ends-seq (matched (not_kw ∷ [])) _ i (not_before-Ends s i) λ m t it _.
        Ends-then (expect like_kw) _ (expect-Ends like_kw t it.closed) λ u su.
          let iu = In-Step it su in
          Ends-seq (addition_level expr n) _ iu (addition_level-Ends u iu) λ p v iv _.
            Ends-bind (located start) _ (located-Ends start v iv.closed)
              λ b w sw. Ends-pure (like b left p m) sw.closed

  compare_tail-Ends : (left : Expr) → EndsBelow (suc n) (compare_tail expr left n)
  unfolding compare_tail
  compare_tail-Ends left s i = elim (Option-cases (comparison_op (current s).kind)) [
    | inl e ↦ rw (e, compare_tail) (Ends-pure left i.closed)
    | inr (o, e) ↦
        rw (e, compare_tail)
          (Ends-pass _ i.closed (comparison_op-NotEof (current s).kind o e) λ _ t st _.
            Ends-seq (addition_level expr n) _ (In-Step i st) (addition_level-Ends t (In-Step i st))
              λ right u iu _. Ends-pure (binary (join_base left right) o left right) iu.closed)
  ]

  in_values-Ends :
      (start : Token) (left : Expr) (m : Bool) → EndsBelow n (in_values expr start left n m)
  unfolding in_values
  in_values-Ends start left m s i =
      Ends-then (expect lparen) _ (expect-Ends lparen s i.closed) λ t st.
        let it = In-Step i st in
        Ends-seq (expr_list expr n) _ it (expr_list-Ends expr n total t it) λ vs u iu _.
          Ends-then (expect rparen) _ (expect-Ends rparen u iu.closed) λ v sv.
            Ends-bind (located start) _ (located-Ends start v sv.closed)
              λ b w sw. Ends-pure (in_list b left vs m) sw.closed

  -- The test for IN or NOT IN means that a token is passed before the list.
  in_tail-Ends :
      (start : Token) (left : Expr) (s : ParserState)
      → In (suc n) s
      → negatable in_kw s ≡ true
      → Ends s (in_tail expr start left n s)
  unfolding in_tail kind_eq
  in_tail-Ends start left s i h = elim (Bool-cases (check (not_kw ∷ []) s)) [
    | inl e ↦
        let (t, p, st, lt) = matched_yes (not_kw ∷ []) s i.closed (refl, tt) e in
        let it = In-passed i st lt in
        Ends-known (matched (not_kw ∷ [])) _ p st (
          Ends-then (expect in_kw) _ (expect-Ends in_kw t it.closed)
            λ u su. in_values-Ends start left true u (In-Step it su))
    | inr e ↦
        let (t, p, st, lt) = expect-passes in_kw s i.closed refl (ground arith) in
        Ends-known (matched (not_kw ∷ [])) _ (matched_no (not_kw ∷ []) s e) (Step-here s i.closed) (
          Ends-known (expect in_kw) (λ _. in_values expr start left n false) p st
            (in_values-Ends start left false t (In-passed i st lt)))
  ]

  predicate_tail-Ends :
      (start : Token) (left : Expr) → EndsBelow (suc n) (predicate_tail expr start left n)
  unfolding predicate_tail if_state kind_eq
  predicate_tail-Ends start left s i =
      Ends-match (is_kw ∷ []) _ _ i.closed (refl, tt)
        (λ _ t st _. is_null_tail-Ends start left t (In-Step i st))
        (Ends-if (negatable between_kw s) (λ _. between_tail-Ends start left s i)
          λ _. Ends-if (negatable in_kw s) (in_tail-Ends start left s i) λ _.
            Ends-if (negatable like_kw s) (λ _. like_tail-Ends start left s i)
              λ _. compare_tail-Ends left s i)

  comparison_level-Ends : EndsBelow (suc n) (comparison_level expr n)
  unfolding comparison_level
  comparison_level-Ends s i = Ends-seq here _ i (here-Ends s i.closed) λ start t it _.
      Ends-seq (addition_level expr n) _ it (addition_level-Ends t it)
        λ left u iu _. predicate_tail-Ends start left u iu

  not_level-Ends :
      (g : ℕ) (s : ParserState) → In (suc n) s → length s.rest ≤ g → Ends s (not_level expr n g s)
  unfolding not_level kind_eq
  not_level-Ends zero s i h = absurd (omega (arith, Closed-pos i.closed))
  not_level-Ends (suc g) s i h =
      Ends-match (not_kw ∷ []) _ _ i.closed (refl, tt)
        (λ start t st lt.
          Ends-bind (not_level expr n g) _ (not_level-Ends g t (In-Step i st) (omega arith))
            λ e u su.
              Ends-bind (located start) _ (located-Ends start u su.closed)
                λ b v sv. Ends-pure (unary b logical_not e) sv.closed)
        (comparison_level-Ends s i)

  pub or_level-Ends : EndsBelow (suc n) (or_level expr n)
  unfolding or_level and_level
  or_level-Ends = level-Ends or_op (level and_op (not_level expr n n) n) n or_op-NotEof (
      level-Ends and_op (not_level expr n n) n and_op-NotEof
        λ s i. not_level-Ends n s i (omega (arith, i.fewer)))

-- The parser of whole expressions ends, with a unit of fuel for each token that is left.
pub parse_expr-Ends : (n : ℕ) → EndsBelow (suc n) (parse_expr n)
unfolding parse_expr
parse_expr-Ends zero s i = absurd (omega (arith, i.fewer, Closed-pos i.closed))
parse_expr-Ends (suc n) s i =
    Ends-if (leb max_depth s.depth)
      (λ _. Ends-seq here _ i (here-Ends s i.closed) λ t u iu _. refuse_depth-Ends t u iu)
      (λ _.
        within-Ends (or_level (parse_expr n) (suc n))
          (or_level-Ends (parse_expr n) (suc n) (parse_expr-Ends n)) s i)
