-- ===== src/Expression/Parser/Windows.antt =====
-- FILTER and OVER (packages/lattik-expression/src/parser/parse.ts, `tryParseFilter` to
-- `frameBound`).
use lattik_studio.Prelude.{ℕ, zero, suc, Option, none, some, [], ◌∷◌, if◌then◌else◌}
use lattik_studio.Expression.Lexer.Kinds.{
  and_kw, over_kw, partition_kw, by_kw, order_kw, asc_kw, desc_kw, rows_kw, range_kw, unbounded_kw,
  preceding_kw, following_kw, current_kw, row_kw, filter_kw, where_kw, nulls_kw, first_kw, last_kw,
  lparen, rparen, comma, kind_eq,
}
use lattik_studio.Expression.Lexer.Scan.{Token}
use lattik_studio.Expression.Nodes.{
  Direction, asc, desc, NullsOrder, first, last, FrameKind, rows, range, Expr, window, Exprs,
  no_exprs, OptExpr, absent, present, OrderItems, no_items, FrameBound, unbounded_preceding,
  current_row, unbounded_following, preceding, following, OptFrame, no_frame, frame_from,
  frame_between,
}
use lattik_studio.Expression.Parser.State.{
  Parser, ◌>>=◌, ◌>>◌, pure, out_of_fuel, advance, expect, if_match, if_check, located,
}
use lattik_studio.Expression.Parser.Tables.{push_item}
use lattik_studio.Expression.Parser.Clauses.{expr_list}

-- The parts take the parser of whole expressions, which they call behind at least one token,
-- and fuel for their loops.
module _ (expr : Parser Expr) where
  -- `frameBound`.
  unfoldable pub frame_bound : Parser FrameBound
  frame_bound =
      if_check (unbounded_kw ∷ [])
        (do
          advance
          if_match (preceding_kw ∷ []) (λ _. pure unbounded_preceding)
              (do expect following_kw; pure unbounded_following))
        (if_check (current_kw ∷ []) (do advance; expect row_kw; pure current_row)
          (do
            e ← expr
            if_match (preceding_kw ∷ []) (λ _. pure (preceding (present e)))
                (do expect following_kw; pure (following (present e)))))

  abbrev pub frame_kind : Token → FrameKind
  frame_kind t = if kind_eq t.kind rows_kw then rows else range

  -- `windowFrame`, at ROWS or RANGE.
  unfoldable pub window_frame : Parser OptFrame
  unfolding frame_bound
  window_frame = do
    t ← advance
    start ← frame_bound
    if_match (and_kw ∷ [])
        (λ _. do end ← frame_bound; pure (frame_between (frame_kind t) start end))
        (pure (frame_from (frame_kind t) start))

  abbrev pub direction : Parser Direction
  direction =
      if_match (asc_kw ∷ []) (λ _. pure asc) (if_match (desc_kw ∷ []) (λ _. pure desc) (pure asc))

  abbrev pub nulls_order : Parser (Option NullsOrder)
  nulls_order =
      if_match (nulls_kw ∷ [])
        (λ _.
          if_match (first_kw ∷ []) (λ _. pure (some first)) (do expect last_kw; pure (some last)))
        (pure none)

  -- `orderByItem`, which its callers push onto their list.
  unfoldable pub order_item : OrderItems → Parser OrderItems
  order_item items = do e ← expr; d ← direction; n ← nulls_order; pure (push_item items e d n)

  unfoldable pub items_rest : ℕ → OrderItems → Parser OrderItems
  unfolding order_item
  items_rest zero items = out_of_fuel
  items_rest (suc f) items =
      if_match (comma ∷ []) (λ _. do more ← order_item items; items_rest f more) (pure items)

  -- `orderByList`.
  unfoldable pub order_list : ℕ → Parser OrderItems
  unfolding order_item items_rest
  order_list f = do items ← order_item no_items; items_rest f items

  -- `tryParseFilter`.
  unfoldable pub filter_clause : Parser OptExpr
  filter_clause =
      if_check (filter_kw ∷ [])
        (do advance; expect lparen; expect where_kw; e ← expr; expect rparen; pure (present e))
        (pure absent)

  unfoldable pub partition_clause : ℕ → Parser Exprs
  unfolding expr_list
  partition_clause f =
      if_check (partition_kw ∷ []) (do advance; expect by_kw; expr_list expr f) (pure no_exprs)

  unfoldable pub order_clause : ℕ → Parser OrderItems
  unfolding order_list
  order_clause f = if_check (order_kw ∷ []) (do advance; expect by_kw; order_list f) (pure no_items)

  unfoldable pub frame_clause : Parser OptFrame
  unfolding window_frame
  frame_clause = if_check (rows_kw ∷ range_kw ∷ []) window_frame (pure no_frame)

  -- `tryParseWindow`.
  unfoldable pub window_clause : ℕ → Expr → Token → Parser Expr
  unfolding partition_clause order_clause frame_clause
  window_clause f func start =
      if_check (over_kw ∷ [])
        (do
          advance
          expect lparen
          ps ← partition_clause f
          os ← order_clause f
          fr ← frame_clause
          expect rparen
          b ← located start
          pure (window b func ps os fr))
        (pure func)
