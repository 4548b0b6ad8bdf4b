-- ===== src/Expression/Parser/Tables.antt =====
-- The parser's tables and limits, and the pushes onto its lists
-- (packages/lattik-expression/src/parser/parse.ts).
use lattik_studio.Prelude.{ℕ, suc, Option, none, some, List, [], ◌∷◌, Text, codes}
use lattik_studio.Expression.DataTypes.{
  Scalar, string, int32, int64, float, double, boolean, timestamp, date, json,
}
use lattik_studio.Expression.Lexer.Kinds.{
  TokenKind, string_type, int32_type, int64_type, float_type, double_type, boolean_type,
  timestamp_type, date_type, json_type, eq, neq, ltgt, lt, lte, gt, gte,
}
use lattik_studio.Expression.Nodes.{
  BinaryOp, equal, unequal, differ, less, less_equal, greater, greater_equal, Direction, NullsOrder,
  Expr, Exprs, no_exprs, expr_cons, Whens, no_whens, when_cons, OrderItems, no_items, item_cons,
}

abbrev pub max_depth : ℕ
max_depth = 128

abbrev pub max_list_length : ℕ
max_list_length = 10_000

abbrev pub max_when_clauses : ℕ
max_when_clauses = 1_000

-- `KNOWN_AGGREGATES`.
unfoldable pub known_aggregates : List Text
known_aggregates =
    codes "SUM"
    ∷ codes "COUNT"
    ∷ codes "AVG"
    ∷ codes "MIN"
    ∷ codes "MAX"
    ∷ codes "FIRST"
    ∷ codes "LAST"
    ∷ codes "COUNT_DISTINCT"
    ∷ codes "COLLECT_LIST"
    ∷ codes "COLLECT_SET"
    ∷ codes "ANY_VALUE"
    ∷ codes "STDDEV"
    ∷ codes "VARIANCE"
    ∷ codes "COUNT_IF"
    ∷ codes "SUM_IF"
    ∷ codes "AVG_IF"
    ∷ codes "PERCENTILE"
    ∷ codes "PERCENTILE_APPROX"
    ∷ codes "APPROX_COUNT_DISTINCT"
    ∷ []

-- `TYPE_TOKEN_MAP`.
unfoldable pub type_of_token : TokenKind → Option Scalar
type_of_token string_type = some string
type_of_token int32_type = some int32
type_of_token int64_type = some int64
type_of_token float_type = some float
type_of_token double_type = some double
type_of_token boolean_type = some boolean
type_of_token timestamp_type = some timestamp
type_of_token date_type = some date
type_of_token json_type = some json
type_of_token _ = none

-- The cases of `matchCompOp`.
unfoldable pub comparison_op : TokenKind → Option BinaryOp
comparison_op eq = some equal
comparison_op neq = some unequal
comparison_op ltgt = some differ
comparison_op lt = some less
comparison_op lte = some less_equal
comparison_op gt = some greater
comparison_op gte = some greater_equal
comparison_op _ = none

unfoldable pub push_expr : Exprs → Expr → Exprs
push_expr no_exprs e = expr_cons e no_exprs
push_expr (expr_cons x xs) e = expr_cons x (push_expr xs e)

unfoldable pub count_exprs : Exprs → ℕ
count_exprs no_exprs = 0
count_exprs (expr_cons x xs) = suc (count_exprs xs)

unfoldable pub push_when : Whens → Expr → Expr → Whens
push_when no_whens c r = when_cons c r no_whens
push_when (when_cons x y ws) c r = when_cons x y (push_when ws c r)

unfoldable pub count_whens : Whens → ℕ
count_whens no_whens = 0
count_whens (when_cons c r ws) = suc (count_whens ws)

unfoldable pub push_item : OrderItems → Expr → Direction → Option NullsOrder → OrderItems
push_item no_items e d n = item_cons e d n no_items
push_item (item_cons x c m is) e d n = item_cons x c m (push_item is e d n)
