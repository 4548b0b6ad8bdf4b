-- ===== src/Expression/Checker/Infer.antt =====
-- The walk over an expression that gives every node its type, children first
-- (packages/lattik-expression/src/checker/check.ts, `infer` and `attachType`, and
-- packages/lattik-expression/src/ast/visitor.ts, `walkExpr`).
use lattik_studio.Prelude.{Bool, false, Option, List, [], ◌++◌}
use lattik_studio.Expression.DataTypes.{DataType, boolean, string, int64, double, null}
use lattik_studio.Expression.Nodes.{
  ExprBase, Expr, int_literal, float_literal, string_literal, bool_literal, null_literal,
  column_ref, star_expr, binary, unary, between, in_list, is_null, like, case_expr, cast,
  function_call, aggregate_call, window, Exprs, no_exprs, expr_cons, OptExpr, absent, present,
  Whens, no_whens, when_cons, OrderItems, no_items, item_cons, FrameBound, unbounded_preceding,
  current_row, unbounded_following, preceding, following, OptFrame, no_frame, frame_from,
  frame_between,
}
use lattik_studio.Expression.Checker.Columns.{SchemaContext}
use lattik_studio.Expression.Checker.Attach.{
  CheckError, typed, type_of, nullable_or, column_type, binary_type, unary_type, case_type,
  function_type,
}
use lattik_studio.Expression.Checker.Aggregates.{aggregate_type}

-- `node.dataType = t`.
abbrev pub set_type : ExprBase → Option DataType → ExprBase
set_type b t = record b { data_type = t }

abbrev cast_type : Option DataType → Bool
cast_type = nullable_or

-- A part with its types, and the errors found in it, in order. Each node takes its own type from
-- its typed children, behind their errors.
unfoldable mutual
  unfolding column_type binary_type unary_type case_type function_type aggregate_type type_of

  pub infer : SchemaContext → Expr → Expr × List CheckError
  infer s (int_literal b v) = (int_literal (set_type b (typed int64 false).0) v, [])
  infer s (float_literal b v) = (float_literal (set_type b (typed double false).0) v, [])
  infer s (string_literal b v) = (string_literal (set_type b (typed string false).0) v, [])
  infer s (bool_literal b v) = (bool_literal (set_type b (typed boolean false).0) v, [])
  infer s (null_literal b) = (null_literal (set_type b (typed null Bool.true).0), [])
  infer s (star_expr b t) = (star_expr (set_type b (typed int64 false).0) t, [])
  infer s (column_ref b t c) =
      let (ty, errors) = column_type s b.loc t c in (column_ref (set_type b ty) t c, errors)
  infer s (binary b op l r) =
      let (l', el) = infer s l in
      let (r', er) = infer s r in
      let (ty, errors) = binary_type op b.loc (type_of l') (type_of r') in
      (binary (set_type b ty) op l' r', el ++ (er ++ errors))
  infer s (unary b op e) =
      let (e', ee) = infer s e in
      let (ty, errors) = unary_type op b.loc (type_of e') in
      (unary (set_type b ty) op e', ee ++ errors)
  infer s (between b e lo hi n) =
      let (e', ee) = infer s e in
      let (lo', el) = infer s lo in
      let (hi', eh) = infer s hi in
      (between (set_type b (typed boolean false).0) e' lo' hi' n, ee ++ (el ++ eh))
  infer s (in_list b e vs n) =
      let (e', ee) = infer s e in
      let (vs', ev) = infer_list s vs in
      (in_list (set_type b (typed boolean false).0) e' vs' n, ee ++ ev)
  infer s (is_null b e n) =
      let (e', ee) = infer s e in (is_null (set_type b (typed boolean false).0) e' n, ee)
  infer s (like b e p n) =
      let (e', ee) = infer s e in
      let (p', ep) = infer s p in (like (set_type b (typed boolean false).0) e' p' n, ee ++ ep)
  infer s (case_expr b o ws x) =
      let (o', eo) = infer_opt s o in
      let (ws', ew) = infer_whens s ws in
      let (x', ex) = infer_opt s x in
      let (ty, errors) = case_type b.loc ws' x' in
      (case_expr (set_type b ty) o' ws' x', eo ++ (ew ++ (ex ++ errors)))
  infer s (cast b e t) =
      let (e', ee) = infer s e in (cast (set_type b (typed t (cast_type (type_of e'))).0) e' t, ee)
  infer s (function_call b n es) =
      let (es', ee) = infer_list s es in
      let (ty, errors) = function_type s b.loc n es' in
      (function_call (set_type b ty) n es', ee ++ errors)
  infer s (aggregate_call b n es d f) =
      let (es', ee) = infer_list s es in
      let (f', ef) = infer_opt s f in
      let (ty, errors) = aggregate_type b.loc n es' f' in
      (aggregate_call (set_type b ty) n es' d f', ee ++ (ef ++ errors))
  infer s (window b f ps os fr) =
      let (f', ef) = infer s f in
      let (ps', ep) = infer_list s ps in
      let (os', eo) = infer_items s os in
      let (fr', er) = infer_frame s fr in
      (window (set_type b (type_of f')) f' ps' os' fr', ef ++ (ep ++ (eo ++ er)))

  pub infer_list : SchemaContext → Exprs → Exprs × List CheckError
  infer_list s no_exprs = (no_exprs, [])
  infer_list s (expr_cons e es) =
      let (e', ee) = infer s e in let (es', er) = infer_list s es in (expr_cons e' es', ee ++ er)

  pub infer_opt : SchemaContext → OptExpr → OptExpr × List CheckError
  infer_opt s absent = (absent, [])
  infer_opt s (present e) = let (e', ee) = infer s e in (present e', ee)

  pub infer_whens : SchemaContext → Whens → Whens × List CheckError
  infer_whens s no_whens = (no_whens, [])
  infer_whens s (when_cons c r ws) =
      let (c', ec) = infer s c in
      let (r', er) = infer s r in
      let (ws', ew) = infer_whens s ws in (when_cons c' r' ws', ec ++ (er ++ ew))

  pub infer_items : SchemaContext → OrderItems → OrderItems × List CheckError
  infer_items s no_items = (no_items, [])
  infer_items s (item_cons e d n is) =
      let (e', ee) = infer s e in
      let (is', ei) = infer_items s is in (item_cons e' d n is', ee ++ ei)

  pub infer_bound : SchemaContext → FrameBound → FrameBound × List CheckError
  infer_bound s unbounded_preceding = (unbounded_preceding, [])
  infer_bound s current_row = (current_row, [])
  infer_bound s unbounded_following = (unbounded_following, [])
  infer_bound s (preceding o) = let (o', eo) = infer_opt s o in (preceding o', eo)
  infer_bound s (following o) = let (o', eo) = infer_opt s o in (following o', eo)

  pub infer_frame : SchemaContext → OptFrame → OptFrame × List CheckError
  infer_frame s no_frame = (no_frame, [])
  infer_frame s (frame_from k a) = let (a', ea) = infer_bound s a in (frame_from k a', ea)
  infer_frame s (frame_between k a z) =
      let (a', ea) = infer_bound s a in
      let (z', ez) = infer_bound s z in (frame_between k a' z', ea ++ ez)
