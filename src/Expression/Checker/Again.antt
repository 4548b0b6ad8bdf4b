-- ===== src/Expression/Checker/Again.antt =====
-- The types that the checker gives do not depend on types that the nodes had before: a cached
-- expression may be checked again, against another schema
-- (packages/lattik-expression/src/checker/check.ts, `infer`).
use lattik_studio.Prelude.{◌≡◌, refl, sym, ap, ◌∙◌, none}
use lattik_studio.Expression.Nodes.{
  ExprBase, Expr, int_literal, float_literal, string_literal, bool_literal, null_literal,
  column_ref, star_expr, binary, unary, between, in_list, is_null, like, case_expr, cast,
  function_call, aggregate_call, window, Exprs, no_exprs, expr_cons, OptExpr, absent, present,
  Whens, no_whens, when_cons, OrderItems, no_items, item_cons, FrameBound, unbounded_preceding,
  current_row, unbounded_following, preceding, following, OptFrame, no_frame, frame_from,
  frame_between,
}
use lattik_studio.Expression.Checker.Columns.{SchemaContext}
use lattik_studio.Expression.Checker.Infer.{
  infer, infer_list, infer_opt, infer_whens, infer_items, infer_bound, infer_frame,
}

abbrev strip_base : ExprBase → ExprBase
strip_base b = record b { data_type = none }

-- The expression as the parser built it, with no types.
unfoldable mutual
  pub strip : Expr → Expr
  strip (int_literal b v) = int_literal (strip_base b) v
  strip (float_literal b v) = float_literal (strip_base b) v
  strip (string_literal b v) = string_literal (strip_base b) v
  strip (bool_literal b v) = bool_literal (strip_base b) v
  strip (null_literal b) = null_literal (strip_base b)
  strip (column_ref b t c) = column_ref (strip_base b) t c
  strip (star_expr b t) = star_expr (strip_base b) t
  strip (binary b op l r) = binary (strip_base b) op (strip l) (strip r)
  strip (unary b op e) = unary (strip_base b) op (strip e)
  strip (between b e lo hi n) = between (strip_base b) (strip e) (strip lo) (strip hi) n
  strip (in_list b e vs n) = in_list (strip_base b) (strip e) (strip_list vs) n
  strip (is_null b e n) = is_null (strip_base b) (strip e) n
  strip (like b e p n) = like (strip_base b) (strip e) (strip p) n
  strip (case_expr b o ws x) = case_expr (strip_base b) (strip_opt o) (strip_whens ws) (strip_opt x)
  strip (cast b e t) = cast (strip_base b) (strip e) t
  strip (function_call b n es) = function_call (strip_base b) n (strip_list es)
  strip (aggregate_call b n es d f) =
      aggregate_call (strip_base b) n (strip_list es) d (strip_opt f)
  strip (window b f ps os fr) =
      window (strip_base b) (strip f) (strip_list ps) (strip_items os) (strip_frame fr)

  pub strip_list : Exprs → Exprs
  strip_list no_exprs = no_exprs
  strip_list (expr_cons e es) = expr_cons (strip e) (strip_list es)

  pub strip_opt : OptExpr → OptExpr
  strip_opt absent = absent
  strip_opt (present e) = present (strip e)

  pub strip_whens : Whens → Whens
  strip_whens no_whens = no_whens
  strip_whens (when_cons c r ws) = when_cons (strip c) (strip r) (strip_whens ws)

  pub strip_items : OrderItems → OrderItems
  strip_items no_items = no_items
  strip_items (item_cons e d n is) = item_cons (strip e) d n (strip_items is)

  pub strip_bound : FrameBound → FrameBound
  strip_bound unbounded_preceding = unbounded_preceding
  strip_bound current_row = current_row
  strip_bound unbounded_following = unbounded_following
  strip_bound (preceding o) = preceding (strip_opt o)
  strip_bound (following o) = following (strip_opt o)

  pub strip_frame : OptFrame → OptFrame
  strip_frame no_frame = no_frame
  strip_frame (frame_from k a) = frame_from k (strip_bound a)
  strip_frame (frame_between k a z) = frame_between k (strip_bound a) (strip_bound z)

mutual
  unfolding infer strip

  infer-strip : (s : SchemaContext) (e : Expr) → infer s (strip e) ≡ infer s e
  infer-strip s (int_literal b v) = refl
  infer-strip s (float_literal b v) = refl
  infer-strip s (string_literal b v) = refl
  infer-strip s (bool_literal b v) = refl
  infer-strip s (null_literal b) = refl
  infer-strip s (column_ref b t c) = refl
  infer-strip s (star_expr b t) = refl
  infer-strip s (binary b op l r) = rw (infer-strip s l, infer-strip s r)
  infer-strip s (unary b op e) = rw (infer-strip s e)
  infer-strip s (between b e lo hi n) = rw (infer-strip s e, infer-strip s lo, infer-strip s hi)
  infer-strip s (in_list b e vs n) = rw (infer-strip s e, infer-strip_list s vs)
  infer-strip s (is_null b e n) = rw (infer-strip s e)
  infer-strip s (like b e p n) = rw (infer-strip s e, infer-strip s p)
  infer-strip s (case_expr b o ws x) =
      rw (infer-strip_opt s o, infer-strip_whens s ws, infer-strip_opt s x)
  infer-strip s (cast b e t) = rw (infer-strip s e)
  infer-strip s (function_call b n es) = rw (infer-strip_list s es)
  infer-strip s (aggregate_call b n es d f) = rw (infer-strip_list s es, infer-strip_opt s f)
  infer-strip s (window b f ps os fr) =
      rw (infer-strip s f, infer-strip_list s ps, infer-strip_items s os, infer-strip_frame s fr)

  infer-strip_list : (s : SchemaContext) (e : Exprs) → infer_list s (strip_list e) ≡ infer_list s e
  infer-strip_list s no_exprs = refl
  infer-strip_list s (expr_cons e es) = rw (infer-strip s e, infer-strip_list s es)

  infer-strip_opt : (s : SchemaContext) (e : OptExpr) → infer_opt s (strip_opt e) ≡ infer_opt s e
  infer-strip_opt s absent = refl
  infer-strip_opt s (present e) = rw (infer-strip s e)

  infer-strip_whens :
      (s : SchemaContext) (e : Whens) → infer_whens s (strip_whens e) ≡ infer_whens s e
  infer-strip_whens s no_whens = refl
  infer-strip_whens s (when_cons c r ws) =
      rw (infer-strip s c, infer-strip s r, infer-strip_whens s ws)

  infer-strip_items :
      (s : SchemaContext) (e : OrderItems) → infer_items s (strip_items e) ≡ infer_items s e
  infer-strip_items s no_items = refl
  infer-strip_items s (item_cons e d n is) = rw (infer-strip s e, infer-strip_items s is)

  infer-strip_bound :
      (s : SchemaContext) (e : FrameBound) → infer_bound s (strip_bound e) ≡ infer_bound s e
  infer-strip_bound s unbounded_preceding = refl
  infer-strip_bound s current_row = refl
  infer-strip_bound s unbounded_following = refl
  infer-strip_bound s (preceding o) = rw (infer-strip_opt s o)
  infer-strip_bound s (following o) = rw (infer-strip_opt s o)

  infer-strip_frame :
      (s : SchemaContext) (e : OptFrame) → infer_frame s (strip_frame e) ≡ infer_frame s e
  infer-strip_frame s no_frame = refl
  infer-strip_frame s (frame_from k a) = rw (infer-strip_bound s a)
  infer-strip_frame s (frame_between k a z) = rw (infer-strip_bound s a, infer-strip_bound s z)

mutual
  unfolding infer strip

  strip-infer : (s : SchemaContext) (e : Expr) → strip (infer s e).0 ≡ strip e
  strip-infer s (int_literal b v) = refl
  strip-infer s (float_literal b v) = refl
  strip-infer s (string_literal b v) = refl
  strip-infer s (bool_literal b v) = refl
  strip-infer s (null_literal b) = refl
  strip-infer s (column_ref b t c) = refl
  strip-infer s (star_expr b t) = refl
  strip-infer s (binary b op l r) = rw (strip-infer s l, strip-infer s r)
  strip-infer s (unary b op e) = rw (strip-infer s e)
  strip-infer s (between b e lo hi n) = rw (strip-infer s e, strip-infer s lo, strip-infer s hi)
  strip-infer s (in_list b e vs n) = rw (strip-infer s e, strip-infer_list s vs)
  strip-infer s (is_null b e n) = rw (strip-infer s e)
  strip-infer s (like b e p n) = rw (strip-infer s e, strip-infer s p)
  strip-infer s (case_expr b o ws x) =
      rw (strip-infer_opt s o, strip-infer_whens s ws, strip-infer_opt s x)
  strip-infer s (cast b e t) = rw (strip-infer s e)
  strip-infer s (function_call b n es) = rw (strip-infer_list s es)
  strip-infer s (aggregate_call b n es d f) = rw (strip-infer_list s es, strip-infer_opt s f)
  strip-infer s (window b f ps os fr) =
      rw (strip-infer s f, strip-infer_list s ps, strip-infer_items s os, strip-infer_frame s fr)

  strip-infer_list : (s : SchemaContext) (e : Exprs) → strip_list (infer_list s e).0 ≡ strip_list e
  strip-infer_list s no_exprs = refl
  strip-infer_list s (expr_cons e es) = rw (strip-infer s e, strip-infer_list s es)

  strip-infer_opt : (s : SchemaContext) (e : OptExpr) → strip_opt (infer_opt s e).0 ≡ strip_opt e
  strip-infer_opt s absent = refl
  strip-infer_opt s (present e) = rw (strip-infer s e)

  strip-infer_whens :
      (s : SchemaContext) (e : Whens) → strip_whens (infer_whens s e).0 ≡ strip_whens e
  strip-infer_whens s no_whens = refl
  strip-infer_whens s (when_cons c r ws) =
      rw (strip-infer s c, strip-infer s r, strip-infer_whens s ws)

  strip-infer_items :
      (s : SchemaContext) (e : OrderItems) → strip_items (infer_items s e).0 ≡ strip_items e
  strip-infer_items s no_items = refl
  strip-infer_items s (item_cons e d n is) = rw (strip-infer s e, strip-infer_items s is)

  strip-infer_bound :
      (s : SchemaContext) (e : FrameBound) → strip_bound (infer_bound s e).0 ≡ strip_bound e
  strip-infer_bound s unbounded_preceding = refl
  strip-infer_bound s current_row = refl
  strip-infer_bound s unbounded_following = refl
  strip-infer_bound s (preceding o) = rw (strip-infer_opt s o)
  strip-infer_bound s (following o) = rw (strip-infer_opt s o)

  strip-infer_frame :
      (s : SchemaContext) (e : OptFrame) → strip_frame (infer_frame s e).0 ≡ strip_frame e
  strip-infer_frame s no_frame = refl
  strip-infer_frame s (frame_from k a) = rw (strip-infer_bound s a)
  strip-infer_frame s (frame_between k a z) = rw (strip-infer_bound s a, strip-infer_bound s z)

-- Checking an expression gives the same types and errors as checking it with no types.
pub infer_ignores_types : (s : SchemaContext) (e : Expr) → infer s (strip e) ≡ infer s e
infer_ignores_types = infer-strip

-- An expression that was checked against one schema, and then against another, has the types and
-- the errors of the second check alone.
pub infer_again : (s s' : SchemaContext) (e : Expr) → infer s' (infer s e).0 ≡ infer s' e
infer_again s s' e =
    sym (infer-strip s' (infer s e).0) ∙ ap (infer s') (strip-infer s e) ∙ infer-strip s' e
