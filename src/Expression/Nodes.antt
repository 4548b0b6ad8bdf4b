-- ===== src/Expression/Nodes.antt =====
-- The nodes of an expression (packages/lattik-expression/src/ast/nodes.ts). A list or an optional
-- node inside a node is a type of the same block.
use lattik_studio.Prelude.{ℕ, Bool, Option, Text}
use lattik_studio.Expression.DataTypes.{Scalar, DataType}

pub record Loc : Type 0 where
  pub start_line : ℕ
  pub start_col : ℕ
  pub stop_line : ℕ
  pub stop_col : ℕ

-- `ExprBase`: the fields that every node carries.
pub record ExprBase : Type 0 where
  pub loc : Option Loc
  pub data_type : Option DataType

-- The operators `+ - * / % || = != <> < <= > >= AND OR`, in this order.
pub data BinaryOp : Type 0 where
  add subtract multiply divide modulo concat equal unequal differ less less_equal greater
        greater_equal and or :
      BinaryOp

-- The operators `-` and `NOT`.
pub data UnaryOp : Type 0 where
  negate logical_not : UnaryOp

pub data Direction : Type 0 where
  asc desc : Direction

pub data NullsOrder : Type 0 where
  first last : NullsOrder

pub data FrameKind : Type 0 where
  rows range : FrameKind

mutual
  pub data Expr : Type 0 where
    int_literal : ExprBase → Text → Expr
    float_literal : ExprBase → Text → Expr
    string_literal : ExprBase → Text → Expr
    bool_literal : ExprBase → Bool → Expr
    null_literal : ExprBase → Expr
    column_ref : ExprBase → Option Text → Text → Expr
    star_expr : ExprBase → Option Text → Expr
    binary : ExprBase → BinaryOp → Expr → Expr → Expr
    unary : ExprBase → UnaryOp → Expr → Expr
    between : ExprBase → Expr → Expr → Expr → Bool → Expr
    in_list : ExprBase → Expr → Exprs → Bool → Expr
    is_null : ExprBase → Expr → Bool → Expr
    like : ExprBase → Expr → Expr → Bool → Expr
    case_expr : ExprBase → OptExpr → Whens → OptExpr → Expr
    cast : ExprBase → Expr → Scalar → Expr
    function_call : ExprBase → Text → Exprs → Expr
    aggregate_call : ExprBase → Text → Exprs → Bool → OptExpr → Expr
    window : ExprBase → Expr → Exprs → OrderItems → OptFrame → Expr

  -- `Expr[]`.
  pub data Exprs : Type 0 where
    no_exprs : Exprs
    expr_cons : Expr → Exprs → Exprs

  -- `Expr | undefined`.
  pub data OptExpr : Type 0 where
    absent : OptExpr
    present : Expr → OptExpr

  -- `CaseWhen[]`: a condition and a result for each.
  pub data Whens : Type 0 where
    no_whens : Whens
    when_cons : Expr → Expr → Whens → Whens

  -- `OrderByItem[]`.
  pub data OrderItems : Type 0 where
    no_items : OrderItems
    item_cons : Expr → Direction → Option NullsOrder → OrderItems → OrderItems

  -- `FrameBound`; the offset of the last two may be missing.
  pub data FrameBound : Type 0 where
    unbounded_preceding current_row unbounded_following : FrameBound
    preceding following : OptExpr → FrameBound

  -- `WindowFrame | undefined`; a frame with and without an end.
  pub data OptFrame : Type 0 where
    no_frame : OptFrame
    frame_from : FrameKind → FrameBound → OptFrame
    frame_between : FrameKind → FrameBound → FrameBound → OptFrame

-- The base fields of a node.
unfoldable pub base_of : Expr → ExprBase
base_of (int_literal b v) = b
base_of (float_literal b v) = b
base_of (string_literal b v) = b
base_of (bool_literal b v) = b
base_of (null_literal b) = b
base_of (column_ref b t c) = b
base_of (star_expr b t) = b
base_of (binary b op l r) = b
base_of (unary b op e) = b
base_of (between b e lo hi n) = b
base_of (in_list b e vs n) = b
base_of (is_null b e n) = b
base_of (like b e p n) = b
base_of (case_expr b o ws e) = b
base_of (cast b e t) = b
base_of (function_call b n as') = b
base_of (aggregate_call b n as' d f) = b
base_of (window b f ps os fr) = b
