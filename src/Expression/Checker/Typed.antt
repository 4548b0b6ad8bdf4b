-- ===== src/Expression/Checker/Typed.antt =====
-- Every node of a checked expression carries a type
-- (packages/lattik-expression/src/checker/check.ts, `attachType`).
use lattik_studio.Prelude.{◌≡◌, ◌≢◌, refl, Option, none, some, arith, Text}
use lattik_studio.Expression.DataTypes.{DataType}
use lattik_studio.Expression.Nodes.{
  Loc, BinaryOp, UnaryOp, negate, logical_not, Expr, int_literal, float_literal, string_literal,
  bool_literal, null_literal, column_ref, star_expr, binary, unary, between, in_list, is_null, like,
  case_expr, cast, function_call, aggregate_call, window, Exprs, no_exprs, expr_cons, OptExpr,
  absent, present, Whens, no_whens, when_cons, OrderItems, no_items, item_cons, FrameBound,
  unbounded_preceding, current_row, unbounded_following, preceding, following, OptFrame, no_frame,
  frame_from, frame_between, base_of,
}
use lattik_studio.Expression.Checker.Columns.{SchemaContext}
use lattik_studio.Expression.Checker.Attach.{
  type_of, column_type, arithmetic_type, comparison_type, binary_type, unary_type, function_type,
}
use lattik_studio.Expression.Checker.Infer.{
  infer, infer_list, infer_opt, infer_whens, infer_items, infer_bound, infer_frame,
}

-- There is a type.
abbrev pub IsTyped : Option DataType → Type 0
IsTyped o = (t : DataType) × (o ≡ some t)

present-IsTyped : (o : Option DataType) → o ≢ none → IsTyped o
present-IsTyped none h = absurd (h refl)
present-IsTyped (some t) h = (t, refl)

-- The node and every node below it carry a type.
unfoldable mutual
  pub AllTyped : Expr → Type 0
  AllTyped (int_literal b v) = IsTyped b.data_type
  AllTyped (float_literal b v) = IsTyped b.data_type
  AllTyped (string_literal b v) = IsTyped b.data_type
  AllTyped (bool_literal b v) = IsTyped b.data_type
  AllTyped (null_literal b) = IsTyped b.data_type
  AllTyped (column_ref b t c) = IsTyped b.data_type
  AllTyped (star_expr b t) = IsTyped b.data_type
  AllTyped (binary b op l r) = IsTyped b.data_type × AllTyped l × AllTyped r
  AllTyped (unary b op e) = IsTyped b.data_type × AllTyped e
  AllTyped (between b e lo hi n) = IsTyped b.data_type × AllTyped e × AllTyped lo × AllTyped hi
  AllTyped (in_list b e vs n) = IsTyped b.data_type × AllTyped e × AllTypedList vs
  AllTyped (is_null b e n) = IsTyped b.data_type × AllTyped e
  AllTyped (like b e p n) = IsTyped b.data_type × AllTyped e × AllTyped p
  AllTyped (case_expr b o ws x) =
      IsTyped b.data_type × AllTypedOpt o × AllTypedWhens ws × AllTypedOpt x
  AllTyped (cast b e t) = IsTyped b.data_type × AllTyped e
  AllTyped (function_call b n es) = IsTyped b.data_type × AllTypedList es
  AllTyped (aggregate_call b n es d f) = IsTyped b.data_type × AllTypedList es × AllTypedOpt f
  AllTyped (window b f ps os fr) =
      IsTyped b.data_type × AllTyped f × AllTypedList ps × AllTypedItems os × AllTypedFrame fr

  pub AllTypedList : Exprs → Type 0
  AllTypedList no_exprs = Unit {0}
  AllTypedList (expr_cons e es) = AllTyped e × AllTypedList es

  pub AllTypedOpt : OptExpr → Type 0
  AllTypedOpt absent = Unit {0}
  AllTypedOpt (present e) = AllTyped e

  pub AllTypedWhens : Whens → Type 0
  AllTypedWhens no_whens = Unit {0}
  AllTypedWhens (when_cons c r ws) = AllTyped c × AllTyped r × AllTypedWhens ws

  pub AllTypedItems : OrderItems → Type 0
  AllTypedItems no_items = Unit {0}
  AllTypedItems (item_cons e d n is) = AllTyped e × AllTypedItems is

  pub AllTypedBound : FrameBound → Type 0
  AllTypedBound unbounded_preceding = Unit {0}
  AllTypedBound current_row = Unit {0}
  AllTypedBound unbounded_following = Unit {0}
  AllTypedBound (preceding o) = AllTypedOpt o
  AllTypedBound (following o) = AllTypedOpt o

  pub AllTypedFrame : OptFrame → Type 0
  AllTypedFrame no_frame = Unit {0}
  AllTypedFrame (frame_from k a) = AllTypedBound a
  AllTypedFrame (frame_between k a z) = AllTypedBound a × AllTypedBound z

own_type : (e : Expr) → AllTyped e → IsTyped (type_of e)
unfolding AllTyped type_of base_of
own_type (int_literal b v) h = h
own_type (float_literal b v) h = h
own_type (string_literal b v) h = h
own_type (bool_literal b v) h = h
own_type (null_literal b) h = h
own_type (column_ref b t c) h = h
own_type (star_expr b t) h = h
own_type (binary b op l r) h = h.0
own_type (unary b op e) h = h.0
own_type (between b e lo hi n) h = h.0
own_type (in_list b e vs n) h = h.0
own_type (is_null b e n) h = h.0
own_type (like b e p n) h = h.0
own_type (case_expr b o ws x) h = h.0
own_type (cast b e t) h = h.0
own_type (function_call b n es) h = h.0
own_type (aggregate_call b n es d f) h = h.0
own_type (window b f ps os fr) h = h.0

column_type-IsTyped :
    (s : SchemaContext) (l : Option Loc) (t : Option Text) (c : Text)
    → IsTyped (column_type s l t c).0
unfolding column_type
column_type-IsTyped s l t c = present-IsTyped _ (λ e. ground arith)

binary_type-IsTyped :
    (op : BinaryOp) (l : Option Loc) (a b : Option DataType) → IsTyped (binary_type op l a b).0
unfolding binary_type arithmetic_type comparison_type
binary_type-IsTyped op l a b = present-IsTyped _ (λ e. ground arith)

unary_type-IsTyped :
    (op : UnaryOp) (l : Option Loc) (a : Option DataType)
    → IsTyped a
    → IsTyped (unary_type op l a).0
unfolding unary_type
unary_type-IsTyped negate l a h = h
unary_type-IsTyped logical_not l a h = (_, refl)

function_type-IsTyped :
    (s : SchemaContext) (l : Option Loc) (n : Text) (es : Exprs)
    → IsTyped (function_type s l n es).0
unfolding function_type
function_type-IsTyped s l n es = present-IsTyped _ (λ e. ground arith)

mutual
  unfolding infer AllTyped

  infer-AllTyped : (s : SchemaContext) (e : Expr) → AllTyped (infer s e).0
  infer-AllTyped s (int_literal b v) = (_, refl)
  infer-AllTyped s (float_literal b v) = (_, refl)
  infer-AllTyped s (string_literal b v) = (_, refl)
  infer-AllTyped s (bool_literal b v) = (_, refl)
  infer-AllTyped s (null_literal b) = (_, refl)
  infer-AllTyped s (column_ref b t c) = column_type-IsTyped s b.loc t c
  infer-AllTyped s (star_expr b t) = (_, refl)
  infer-AllTyped s (binary b op l r) =
      (binary_type-IsTyped op b.loc _ _, infer-AllTyped s l, infer-AllTyped s r)
  infer-AllTyped s (unary b op e) =
      let h = infer-AllTyped s e in (unary_type-IsTyped op b.loc _ (own_type (infer s e).0 h), h)
  infer-AllTyped s (between b e lo hi n) =
      ((_, refl), infer-AllTyped s e, infer-AllTyped s lo, infer-AllTyped s hi)
  infer-AllTyped s (in_list b e vs n) = ((_, refl), infer-AllTyped s e, infer_list-AllTyped s vs)
  infer-AllTyped s (is_null b e n) = ((_, refl), infer-AllTyped s e)
  infer-AllTyped s (like b e p n) = ((_, refl), infer-AllTyped s e, infer-AllTyped s p)
  infer-AllTyped s (case_expr b o ws x) =
      ((_, refl), infer_opt-AllTyped s o, infer_whens-AllTyped s ws, infer_opt-AllTyped s x)
  infer-AllTyped s (cast b e t) = ((_, refl), infer-AllTyped s e)
  infer-AllTyped s (function_call b n es) =
      (function_type-IsTyped s b.loc n (infer_list s es).0, infer_list-AllTyped s es)
  infer-AllTyped s (aggregate_call b n es d f) =
      ((_, refl), infer_list-AllTyped s es, infer_opt-AllTyped s f)
  infer-AllTyped s (window b f ps os fr) =
      let h = infer-AllTyped s f in
      (
        own_type (infer s f).0 h,
        h,
        infer_list-AllTyped s ps,
        infer_items-AllTyped s os,
        infer_frame-AllTyped s fr,
      )

  infer_list-AllTyped : (s : SchemaContext) (es : Exprs) → AllTypedList (infer_list s es).0
  infer_list-AllTyped s no_exprs = tt
  infer_list-AllTyped s (expr_cons e es) = (infer-AllTyped s e, infer_list-AllTyped s es)

  infer_opt-AllTyped : (s : SchemaContext) (o : OptExpr) → AllTypedOpt (infer_opt s o).0
  infer_opt-AllTyped s absent = tt
  infer_opt-AllTyped s (present e) = infer-AllTyped s e

  infer_whens-AllTyped : (s : SchemaContext) (ws : Whens) → AllTypedWhens (infer_whens s ws).0
  infer_whens-AllTyped s no_whens = tt
  infer_whens-AllTyped s (when_cons c r ws) =
      (infer-AllTyped s c, infer-AllTyped s r, infer_whens-AllTyped s ws)

  infer_items-AllTyped : (s : SchemaContext) (is : OrderItems) → AllTypedItems (infer_items s is).0
  infer_items-AllTyped s no_items = tt
  infer_items-AllTyped s (item_cons e d n is) = (infer-AllTyped s e, infer_items-AllTyped s is)

  infer_bound-AllTyped : (s : SchemaContext) (a : FrameBound) → AllTypedBound (infer_bound s a).0
  infer_bound-AllTyped s unbounded_preceding = tt
  infer_bound-AllTyped s current_row = tt
  infer_bound-AllTyped s unbounded_following = tt
  infer_bound-AllTyped s (preceding o) = infer_opt-AllTyped s o
  infer_bound-AllTyped s (following o) = infer_opt-AllTyped s o

  infer_frame-AllTyped : (s : SchemaContext) (f : OptFrame) → AllTypedFrame (infer_frame s f).0
  infer_frame-AllTyped s no_frame = tt
  infer_frame-AllTyped s (frame_from k a) = infer_bound-AllTyped s a
  infer_frame-AllTyped s (frame_between k a z) =
      (infer_bound-AllTyped s a, infer_bound-AllTyped s z)

-- In a checked expression every node, the root and all below it, carries a type.
pub infer_typed : (s : SchemaContext) (e : Expr) → AllTyped (infer s e).0
infer_typed = infer-AllTyped
