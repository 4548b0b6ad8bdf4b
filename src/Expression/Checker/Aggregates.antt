-- ===== src/Expression/Checker/Aggregates.antt =====
-- The types of aggregate calls and the checks of their arguments
-- (packages/lattik-expression/src/checker/check.ts, `aggregateReturnType`, `inferAggregate`).
use lattik_studio.Prelude.{
  Bool, true, false, Option, none, some, List, [], ◌∷◌, ◌++◌, Text, codes, text_eq, mem_text, ◌==◌,
  ◌&&◌, ◌||◌, not, if◌then◌else◌,
}
use lattik_studio.Expression.DataTypes.{
  Scalar, int32, int64, double, boolean, json, unknown, DataType, data_type, scalar_eq, is_numeric,
}
use lattik_studio.Expression.Nodes.{
  Loc, star_expr, Exprs, no_exprs, expr_cons, OptExpr, absent, present, base_of,
}
use lattik_studio.Expression.Parser.Tables.{count_exprs}
use lattik_studio.Expression.Checker.Attach.{
  CheckMessage, CheckError, Typed, error_at, error_if, type_of, is_known, aggregate_arg_count,
  condition_not_boolean, filter_not_boolean,
}

-- `aggregateReturnType`; the tests of the switch in order, on the upper-case name.
unfoldable pub sum_type : Option DataType → DataType
unfolding is_numeric
sum_type none = data_type double true
sum_type (some t) =
    if is_numeric t.scalar
    then data_type (if scalar_eq t.scalar int32 then int64 else t.scalar) true
    else data_type double true

abbrev picked_type : Option DataType → DataType
picked_type none = data_type unknown true
picked_type (some t) = data_type t.scalar true

abbrev one_of : Text → List Text → Bool
one_of name names = mem_text name names

unfoldable pub aggregate_return_type : Text → Option DataType → DataType
unfolding sum_type mem_text
aggregate_return_type name t =
    if one_of name (codes "COUNT" ∷ codes "COUNT_IF" ∷ codes "APPROX_COUNT_DISTINCT" ∷ [])
    then data_type int64 false
    else if one_of name (codes "SUM" ∷ codes "SUM_IF" ∷ [])
    then sum_type t
    else if one_of name (codes "AVG" ∷ codes "AVG_IF" ∷ [])
    then data_type double true
    else if one_of name
        (codes "MIN" ∷ codes "MAX" ∷ codes "FIRST" ∷ codes "LAST" ∷ codes "ANY_VALUE" ∷ [])
    then picked_type t
    else if one_of name (codes "COLLECT_LIST" ∷ codes "COLLECT_SET" ∷ [])
    then data_type json false
    else if one_of name (codes "STDDEV" ∷ codes "VARIANCE" ∷ [])
    then data_type double true
    else if one_of name (codes "PERCENTILE" ∷ codes "PERCENTILE_APPROX" ∷ [])
    then data_type double true
    else data_type unknown true

-- A type that is neither boolean, nor NULL's, nor unknown.
abbrev pub not_boolean : Scalar → Bool
not_boolean t = not (scalar_eq t boolean) && is_known t

abbrev boolean_errors : Option Loc → (Scalar → CheckMessage) → Option DataType → List CheckError
boolean_errors l m none = []
boolean_errors l m (some t) = error_if (not_boolean t.scalar) l (m t.scalar)

-- The type of the first argument, unless it is a star.
abbrev first_arg_type : Exprs → Option DataType
first_arg_type no_exprs = none
first_arg_type (expr_cons (star_expr b t) es) = none
first_arg_type (expr_cons e es) = type_of e

abbrev condition_if_two : Option Loc → Text → Exprs → List CheckError
condition_if_two l name (expr_cons a (expr_cons c no_exprs)) =
    boolean_errors l (condition_not_boolean name) (type_of c)
condition_if_two l name args = error_at l (aggregate_arg_count name (count_exprs args))

-- The checks of the conditional aggregates.
abbrev condition_errors : Option Loc → Text → Exprs → List CheckError
condition_errors l name args =
    if text_eq name (codes "COUNT_IF")
    then (if count_exprs args == 1
        then boolean_errors l (condition_not_boolean name) (first_arg_type args)
        else error_at l (aggregate_arg_count name (count_exprs args)))
    else if text_eq name (codes "SUM_IF") || text_eq name (codes "AVG_IF")
    then condition_if_two l name args
    else []

abbrev filter_errors : OptExpr → List CheckError
filter_errors absent = []
filter_errors (present f) = boolean_errors (base_of f).loc filter_not_boolean (type_of f)

-- `inferAggregate`.
unfoldable pub aggregate_type : Option Loc → Text → Exprs → OptExpr → Typed
unfolding aggregate_return_type type_of count_exprs base_of
aggregate_type l name args filter = (
  some (aggregate_return_type name (first_arg_type args)),
  condition_errors l name args ++ filter_errors filter,
)
