-- ===== src/Expression/Parser/Total/Windows.antt =====
-- FILTER and OVER end, if whole expressions do
-- (packages/lattik-expression/src/parser/parse.ts, `tryParseFilter` to `frameBound`).
use lattik_studio.Prelude.{ℕ, zero, suc, ◌≤◌, [], ◌∷◌, refl, arith, length, none, some}
use lattik_studio.Expression.Lexer.Kinds.{
  kind_eq, comma, lparen, rparen, filter_kw, where_kw, over_kw, partition_kw, by_kw, order_kw,
  asc_kw, desc_kw, nulls_kw, first_kw, last_kw, rows_kw, range_kw, unbounded_kw, preceding_kw,
  following_kw, current_kw, row_kw, and_kw,
}
use lattik_studio.Expression.Lexer.Scan.{Token}
use lattik_studio.Expression.Nodes.{
  Expr, OrderItems, no_exprs, no_items, no_frame, absent, present, preceding, following,
  unbounded_preceding, unbounded_following, current_row, frame_from, frame_between, window, asc,
  desc, first, last,
}
use lattik_studio.Expression.Parser.State.{Parser, ParserState, expect, located, current}
use lattik_studio.Expression.Parser.Tables.{push_item}
use lattik_studio.Expression.Parser.Windows.{
  frame_bound, frame_kind, window_frame, direction, nulls_order, order_item, items_rest, order_list,
  filter_clause, partition_clause, order_clause, frame_clause, window_clause,
}
use lattik_studio.Expression.Parser.Steps.{Step-le, Ends, Ends-pure, Ends-bind, Ends-then}
use lattik_studio.Expression.Parser.Rules.{
  Ends-pass, Ends-match, Ends-check, Ends-seq, EndsBelow, Closed-pos, In, In-Step, NotEof,
  expect-Ends, located-Ends,
}
use lattik_studio.Expression.Parser.Total.Clauses.{expr_list-Ends}

module _ (expr : Parser Expr) (n : ℕ) (total : EndsBelow n expr) where
  pub frame_bound-Ends : EndsBelow n (frame_bound expr)
  unfolding frame_bound kind_eq
  frame_bound-Ends s i =
      Ends-check (unbounded_kw ∷ []) _ _ (refl, tt)
        (λ ne. Ends-pass _ i.closed ne λ _ t st _.
          Ends-match (preceding_kw ∷ []) _ _ st.closed (refl, tt)
            (λ _ u su _. Ends-pure unbounded_preceding su.closed)
            (Ends-then (expect following_kw) _ (expect-Ends following_kw t st.closed)
              λ u su. Ends-pure unbounded_following su.closed))
        (Ends-check (current_kw ∷ []) _ _ (refl, tt)
          (λ ne. Ends-pass _ i.closed ne λ _ t st _.
            Ends-then (expect row_kw) _ (expect-Ends row_kw t st.closed)
              λ u su. Ends-pure current_row su.closed)
          (Ends-seq expr _ i (total s i) λ e t it st.
            Ends-match (preceding_kw ∷ []) _ _ it.closed (refl, tt)
              (λ _ u su _. Ends-pure (preceding (present e)) su.closed)
              (Ends-then (expect following_kw) _ (expect-Ends following_kw t it.closed)
                λ u su. Ends-pure (following (present e)) su.closed)))

  pub window_frame-Ends :
      (s : ParserState) → In n s → NotEof (current s).kind → Ends s (window_frame expr s)
  unfolding window_frame kind_eq
  window_frame-Ends s i ne = Ends-pass _ i.closed ne λ tok t st _.
      Ends-seq (frame_bound expr) _ (In-Step i st) (frame_bound-Ends t (In-Step i st))
        λ start u iu su.
          Ends-match (and_kw ∷ []) _ _ iu.closed (refl, tt)
            (λ _ v sv _.
              Ends-seq (frame_bound expr) _ (In-Step iu sv) (frame_bound-Ends v (In-Step iu sv))
                λ end w iw sw. Ends-pure (frame_between (frame_kind expr tok) start end) iw.closed)
            (Ends-pure (frame_from (frame_kind expr tok) start) iu.closed)

  direction-Ends : EndsBelow n (direction expr)
  unfolding kind_eq
  direction-Ends s i =
      Ends-match (asc_kw ∷ []) _ _ i.closed (refl, tt) (λ _ t st _. Ends-pure asc st.closed)
        (Ends-match (desc_kw ∷ []) _ _ i.closed (refl, tt) (λ _ t st _. Ends-pure desc st.closed)
          (Ends-pure asc i.closed))

  nulls_order-Ends : EndsBelow n (nulls_order expr)
  unfolding kind_eq
  nulls_order-Ends s i =
      Ends-match (nulls_kw ∷ []) _ _ i.closed (refl, tt)
        (λ _ t st _.
          Ends-match (first_kw ∷ []) _ _ st.closed (refl, tt)
            (λ _ u su _. Ends-pure (some first) su.closed)
            (Ends-then (expect last_kw) _ (expect-Ends last_kw t st.closed)
              λ u su. Ends-pure (some last) su.closed))
        (Ends-pure none i.closed)

  order_item-Ends : (items : OrderItems) → EndsBelow n (order_item expr items)
  unfolding order_item
  order_item-Ends items s i = Ends-seq expr _ i (total s i) λ e t it _.
      Ends-seq (direction expr) _ it (direction-Ends t it) λ d u iu _.
        Ends-seq (nulls_order expr) _ iu (nulls_order-Ends u iu)
          λ o v iv _. Ends-pure (push_item items e d o) iv.closed

  items_rest-Ends :
      (g : ℕ) (items : OrderItems) (s : ParserState)
      → In n s
      → length s.rest ≤ g
      → Ends s (items_rest expr g items s)
  unfolding items_rest kind_eq
  items_rest-Ends zero items s i h = absurd (omega (arith, Closed-pos i.closed))
  items_rest-Ends (suc g) items s i h =
      Ends-match (comma ∷ []) _ _ i.closed (refl, tt)
        (λ _ t st lt.
          Ends-seq (order_item expr items) _ (In-Step i st) (order_item-Ends items t (In-Step i st))
            λ more u iu su. items_rest-Ends g more u iu (omega (arith, Step-le su)))
        (Ends-pure items i.closed)

  order_list-Ends : EndsBelow n (order_list expr n)
  unfolding order_list
  order_list-Ends s i =
      Ends-seq (order_item expr no_items) _ i (order_item-Ends no_items s i)
        λ items t it _. items_rest-Ends n items t it (omega (arith, it.fewer))

  pub filter_clause-Ends : EndsBelow n (filter_clause expr)
  unfolding filter_clause kind_eq
  filter_clause-Ends s i =
      Ends-check (filter_kw ∷ []) _ _ (refl, tt)
        (λ ne. Ends-pass _ i.closed ne λ _ t st _.
          Ends-then (expect lparen) _ (expect-Ends lparen t st.closed) λ u su.
            Ends-then (expect where_kw) _ (expect-Ends where_kw u su.closed) λ v sv.
              let iv = In-Step (In-Step (In-Step i st) su) sv in
              Ends-seq expr _ iv (total v iv) λ e w iw _.
                Ends-then (expect rparen) _ (expect-Ends rparen w iw.closed)
                  λ x sx. Ends-pure (present e) sx.closed)
        (Ends-pure absent i.closed)

  partition_clause-Ends : EndsBelow n (partition_clause expr n)
  unfolding partition_clause kind_eq
  partition_clause-Ends s i =
      Ends-check (partition_kw ∷ []) _ _ (refl, tt)
        (λ ne. Ends-pass _ i.closed ne λ _ t st _.
          Ends-then (expect by_kw) _ (expect-Ends by_kw t st.closed)
            λ u su. expr_list-Ends expr n total u (In-Step (In-Step i st) su))
        (Ends-pure no_exprs i.closed)

  order_clause-Ends : EndsBelow n (order_clause expr n)
  unfolding order_clause kind_eq
  order_clause-Ends s i =
      Ends-check (order_kw ∷ []) _ _ (refl, tt)
        (λ ne. Ends-pass _ i.closed ne λ _ t st _.
          Ends-then (expect by_kw) _ (expect-Ends by_kw t st.closed)
            λ u su. order_list-Ends u (In-Step (In-Step i st) su))
        (Ends-pure no_items i.closed)

  frame_clause-Ends : EndsBelow n (frame_clause expr)
  unfolding frame_clause kind_eq
  frame_clause-Ends s i =
      Ends-check (rows_kw ∷ range_kw ∷ []) _ _ (refl, (refl, tt)) (window_frame-Ends s i)
        (Ends-pure no_frame i.closed)

  pub window_clause-Ends :
      (func : Expr) (start : Token) → EndsBelow n (window_clause expr n func start)
  unfolding window_clause kind_eq
  window_clause-Ends func start s i =
      Ends-check (over_kw ∷ []) _ _ (refl, tt)
        (λ ne. Ends-pass _ i.closed ne λ _ t st _.
          Ends-then (expect lparen) _ (expect-Ends lparen t st.closed) λ u su.
            let iu = In-Step (In-Step i st) su in
            Ends-seq (partition_clause expr n) _ iu (partition_clause-Ends u iu) λ ps v iv _.
              Ends-seq (order_clause expr n) _ iv (order_clause-Ends v iv) λ os w iw _.
                Ends-seq (frame_clause expr) _ iw (frame_clause-Ends w iw) λ fr x ix _.
                  Ends-then (expect rparen) _ (expect-Ends rparen x ix.closed) λ y sy.
                    Ends-bind (located start) _ (located-Ends start y sy.closed)
                      λ b z sz. Ends-pure (window b func ps os fr) sz.closed)
        (Ends-pure func i.closed)
