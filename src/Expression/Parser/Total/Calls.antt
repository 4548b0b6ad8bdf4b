-- ===== src/Expression/Parser/Total/Calls.antt =====
-- Calls and names end, if whole expressions do
-- (packages/lattik-expression/src/parser/parse.ts, `identExpr` and `functionCallExpr`).
use lattik_studio.Prelude.{
  ℕ, suc, [], ◌∷◌, refl, none, some, Text, text_eq, to_upper, codes, mem_text,
}
use lattik_studio.Expression.Lexer.Kinds.{kind_eq, lparen, rparen, star, dot, ident, distinct_kw}
use lattik_studio.Expression.Lexer.Scan.{Token}
use lattik_studio.Expression.Nodes.{Expr, no_exprs, star_expr, column_ref}
use lattik_studio.Expression.Parser.State.{Parser, ParserState, expect, located, current, matched}
use lattik_studio.Expression.Parser.Tables.{known_aggregates}
use lattik_studio.Expression.Parser.Windows.{filter_clause}
use lattik_studio.Expression.Parser.Calls.{count_star, call_args, plain_call, call_node, ident_node}
use lattik_studio.Expression.Parser.Steps.{Ends, Ends-pure, Ends-bind, Ends-then}
use lattik_studio.Expression.Parser.Rules.{
  Ends-pass, Ends-match, Ends-check, Ends-seq, Ends-choose, EndsBelow, In, In-Step, In-passed,
  NotEof, expect-Ends, located-Ends, matched-Ends,
}
use lattik_studio.Expression.Parser.Total.Clauses.{expr_list-Ends}
use lattik_studio.Expression.Parser.Total.Windows.{filter_clause-Ends, window_clause-Ends}

module _ (expr : Parser Expr) (n : ℕ) (total : EndsBelow n expr) where
  count_star-Ends :
      (name : Text) (start : Token) (s : ParserState)
      → In n s
      → NotEof (current s).kind
      → Ends s (count_star expr n name start s)
  unfolding count_star
  count_star-Ends name start s i ne = Ends-pass _ i.closed ne λ _ t st _.
      Ends-then (expect rparen) _ (expect-Ends rparen t st.closed) λ u su.
        let iu = In-Step (In-Step i st) su in
        Ends-seq (filter_clause expr) _ iu (filter_clause-Ends expr n total u iu) λ f v iv _.
          Ends-seq (located start) _ iv (located-Ends start v iv.closed)
            λ b w iw _. window_clause-Ends expr n total _ start w iw

  call_args-Ends : EndsBelow n (call_args expr n)
  unfolding call_args kind_eq
  call_args-Ends s i =
      Ends-check (rparen ∷ []) _ _ (refl, tt) (λ _. Ends-pure no_exprs i.closed)
        (expr_list-Ends expr n total s i)

  plain_call-Ends : (name : Text) (start : Token) → EndsBelow n (plain_call expr n name start)
  unfolding plain_call kind_eq
  plain_call-Ends name start s i =
      Ends-seq (matched (distinct_kw ∷ [])) _ i
        (matched-Ends (distinct_kw ∷ []) s i.closed (refl, tt))
        λ d t it _. Ends-seq (call_args expr n) _ it (call_args-Ends t it) λ args u iu _.
          Ends-then (expect rparen) _ (expect-Ends rparen u iu.closed) λ v sv.
            let iv = In-Step iu sv in
            Ends-choose (mem_text name known_aggregates) _ _
              (Ends-seq (filter_clause expr) _ iv (filter_clause-Ends expr n total v iv) λ f w iw _.
                Ends-seq (located start) _ iw (located-Ends start w iw.closed)
                  λ b x ix _. window_clause-Ends expr n total _ start x ix)
              (Ends-seq (located start) _ iv (located-Ends start v iv.closed)
                λ b w iw _. window_clause-Ends expr n total _ start w iw)

  pub call_node-Ends : (name : Text) (start : Token) → EndsBelow n (call_node expr n name start)
  unfolding call_node kind_eq
  call_node-Ends name start s i =
      Ends-then (expect lparen) _ (expect-Ends lparen s i.closed) λ t st.
        let it = In-Step i st in
        Ends-choose (text_eq (to_upper name) (codes "COUNT")) _ _
          (Ends-check (star ∷ []) _ _ (refl, tt) (count_star-Ends (to_upper name) start t it)
            (plain_call-Ends (to_upper name) start t it))
          (plain_call-Ends (to_upper name) start t it)

  pub ident_node-Ends :
      (s : ParserState) → In (suc n) s → NotEof (current s).kind → Ends s (ident_node expr n s)
  unfolding ident_node kind_eq
  ident_node-Ends s i ne = Ends-pass _ i.closed ne λ tok t st lt.
      let it = In-passed i st lt in
      Ends-check (lparen ∷ []) _ _ (refl, tt) (λ _. call_node-Ends tok.text tok t it)
        (Ends-match (dot ∷ []) _ _ it.closed (refl, tt)
          (λ _ u su _.
            Ends-match (star ∷ []) _ _ su.closed (refl, tt)
              (λ _ v sv _.
                Ends-bind (located tok) _ (located-Ends tok v sv.closed)
                  λ b w sw. Ends-pure (star_expr b (some tok.text)) sw.closed)
              (Ends-bind (expect ident) _ (expect-Ends ident u su.closed) λ c v sv.
                Ends-bind (located tok) _ (located-Ends tok v sv.closed)
                  λ b w sw. Ends-pure (column_ref b (some tok.text) c.text) sw.closed))
          (Ends-bind (located tok) _ (located-Ends tok t it.closed)
            λ b u su. Ends-pure (column_ref b none tok.text) su.closed))
