-- ===== src/Expression/Checker/Attach.antt =====
-- The type of a node whose children have theirs, and the errors found at it
-- (packages/lattik-expression/src/checker/check.ts, `attachType` to `inferAggregate`).
use lattik_studio.Prelude.{
  ℕ, Bool, true, false, Option, none, some, List, [], ◌∷◌, ◌++◌, Text, ltb, ◌&&◌, ◌||◌, not,
  if◌then◌else◌,
}
use lattik_studio.Expression.DataTypes.{
  Scalar, string, boolean, null, unknown, DataType, data_type, scalar_eq, is_numeric, is_comparable,
  promote_numeric, common_type,
}
use lattik_studio.Expression.Nodes.{
  Loc, BinaryOp, add, subtract, multiply, divide, modulo, concat, and, or, UnaryOp, negate,
  logical_not, Expr, Exprs, no_exprs, expr_cons, OptExpr, absent, present, Whens, no_whens,
  when_cons, base_of,
}
use lattik_studio.Expression.Parser.Tables.{count_exprs}
use lattik_studio.Expression.Checker.Functions.{
  FunctionSignature, built_in_functions, find_function, widen,
}
use lattik_studio.Expression.Checker.Columns.{SchemaContext, named, matching}

-- The messages of the checker, a constructor for each template.
pub data CheckMessage : Type 0 where
  unknown_column : Option Text → Text → CheckMessage
  ambiguous_column : Text → CheckMessage
  cannot_apply : BinaryOp → Scalar → Scalar → CheckMessage
  cannot_compare : Scalar → Scalar → CheckMessage
  cannot_negate : Scalar → CheckMessage
  incompatible_branches : Scalar → Scalar → CheckMessage
  unknown_function : Text → CheckMessage
  function_arg_count : Text → ℕ → Option ℕ → ℕ → CheckMessage
  aggregate_arg_count : Text → ℕ → CheckMessage
  condition_not_boolean : Text → Scalar → CheckMessage
  filter_not_boolean : Scalar → CheckMessage

pub record CheckError : Type 0 where
  pub loc : Option Loc
  pub message : CheckMessage

-- The type for `node.dataType`, and the errors pushed.
abbrev pub Typed : Type 0
Typed = Option DataType × List CheckError

abbrev pub typed : Scalar → Bool → Typed
typed s n = (some (data_type s n), [])

abbrev pub error_at : Option Loc → CheckMessage → List CheckError
error_at l m = (record { loc = l; message = m }) ∷ []

abbrev pub error_if : Bool → Option Loc → CheckMessage → List CheckError
error_if b l m = if b then error_at l m else []

-- `e.dataType`.
unfoldable pub type_of : Expr → Option DataType
unfolding base_of
type_of e = (base_of e).data_type

abbrev pub nullable_or : Option DataType → Bool
nullable_or none = false
nullable_or (some t) = t.nullable

-- `node.table ? ... : ...` in the name that the error shows.
unfoldable pub column_type : SchemaContext → Option Loc → Option Text → Text → Typed
unfolding matching
column_type s l table column = elim (matching s table column) [
  | [] ↦ (some (data_type unknown true), error_at l (unknown_column (named table) column))
  | c ∷ [] ↦ (some c.data_type, [])
  | c ∷ d ∷ cs ↦ elim (named table) [
    | none ↦ (some c.data_type, error_at none (ambiguous_column column))
    | some t ↦ (some c.data_type, [])
  ]
]

abbrev pub both_nullable : Option DataType → Option DataType → Bool
both_nullable lt rt = nullable_or lt || nullable_or rt

abbrev pub arithmetic_of :
    BinaryOp → Option Loc → DataType → DataType → Bool → Option Scalar → Typed
arithmetic_of op l lt rt n none =
    (some (data_type unknown n), error_at l (cannot_apply op lt.scalar rt.scalar))
arithmetic_of op l lt rt n (some p) = typed p n

-- The arithmetic operators.
unfoldable pub arithmetic_type : BinaryOp → Option Loc → Option DataType → Option DataType → Typed
unfolding promote_numeric
arithmetic_type op l (some lt) (some rt) =
    if not (scalar_eq lt.scalar null) && not (scalar_eq rt.scalar null)
    then arithmetic_of op l lt rt (lt.nullable || rt.nullable) (promote_numeric lt.scalar rt.scalar)
    else typed unknown (lt.nullable || rt.nullable)
arithmetic_type op l none rt = typed unknown (both_nullable none rt)
arithmetic_type op l (some lt) none = typed unknown (both_nullable (some lt) none)

abbrev pub is_known : Scalar → Bool
is_known t = not (scalar_eq t null) && not (scalar_eq t unknown)

abbrev pub comparison_errors : Option Loc → Option DataType → Option DataType → List CheckError
comparison_errors l (some lt) (some rt) =
    error_if
      ((is_known lt.scalar && is_known rt.scalar)
        && (not (is_comparable lt.scalar) || not (is_comparable rt.scalar)))
      l (cannot_compare lt.scalar rt.scalar)
comparison_errors l none rt = []
comparison_errors l (some lt) none = []

unfoldable pub comparison_type : Option Loc → Option DataType → Option DataType → Typed
unfolding is_comparable
comparison_type l lt rt = (some (data_type boolean false), comparison_errors l lt rt)

-- `inferBinary`.
unfoldable pub binary_type : BinaryOp → Option Loc → Option DataType → Option DataType → Typed
unfolding arithmetic_type comparison_type
binary_type add l lt rt = arithmetic_type add l lt rt
binary_type subtract l lt rt = arithmetic_type subtract l lt rt
binary_type multiply l lt rt = arithmetic_type multiply l lt rt
binary_type divide l lt rt = arithmetic_type divide l lt rt
binary_type modulo l lt rt = arithmetic_type modulo l lt rt
binary_type concat l lt rt = typed string (both_nullable lt rt)
binary_type and l lt rt = typed boolean false
binary_type or l lt rt = typed boolean false
binary_type _ l lt rt = comparison_type l lt rt

abbrev pub negation_errors : Option Loc → Option DataType → List CheckError
negation_errors l none = []
negation_errors l (some t) =
    error_if (is_known t.scalar && not (is_numeric t.scalar)) l (cannot_negate t.scalar)

-- `inferUnary`.
unfoldable pub unary_type : UnaryOp → Option Loc → Option DataType → Typed
unfolding is_numeric
unary_type negate l t = (t, negation_errors l t)
unary_type logical_not l t = typed boolean false

-- The loop of `inferCase`: the type and the nullability so far, and the errors.
abbrev pub Branches : Type 0
Branches = Scalar × Bool × List CheckError

abbrev pub branch_of : Option Loc → Scalar → Bool → DataType → Option Scalar → Branches
branch_of l r n t none = (r, n || t.nullable, error_at l (incompatible_branches r t.scalar))
branch_of l r n t (some c) = (c, n || t.nullable, [])

abbrev pub branch_step : Option Loc → Scalar → Bool → Option DataType → Branches
branch_step l r n none = (r, n, [])
branch_step l r n (some t) = branch_of l r n t (common_type r t.scalar)

unfoldable pub branch_types : Option Loc → Scalar → Bool → Whens → Branches
unfolding type_of common_type
branch_types l r n no_whens = (r, n, [])
branch_types l r n (when_cons c e ws) =
    let (r', n', errors) = branch_step l r n (type_of e) in
    let (r'', n'', more) = branch_types l r' n' ws in (r'', n'', errors ++ more)

abbrev pub opt_type : OptExpr → Option DataType
opt_type absent = none
opt_type (present e) = type_of e

abbrev pub else_type : Scalar → Bool → Option DataType → DataType
else_type r n none = data_type r true
else_type r n (some t) = data_type (widen r t.scalar) (n || t.nullable)

-- `inferCase`.
unfoldable pub case_type : Option Loc → Whens → OptExpr → Typed
unfolding branch_types type_of common_type
case_type l ws other =
    let (r, n, errors) = branch_types l null false ws in
    (some (else_type r n (opt_type other)), errors)

-- `args.map((a) => a.dataType).filter((t) => t !== undefined)`.
unfoldable pub arg_types : Exprs → List DataType
unfolding type_of
arg_types no_exprs = []
arg_types (expr_cons e es) = elim (type_of e) [ none ↦ arg_types es | some t ↦ t ∷ arg_types es ]

abbrev pub above_max : ℕ → Option ℕ → Bool
above_max n none = false
above_max n (some m) = ltb m n

abbrev pub call_type : Option Loc → Text → Exprs → Option FunctionSignature → Typed
call_type l name args none = (some (data_type unknown true), error_at l (unknown_function name))
call_type l name args (some f) =
    let n = count_exprs args in
    (
      some (f.resolve (arg_types args)),
      error_if (ltb n f.min_args || above_max n f.max_args) l
          (function_arg_count name f.min_args f.max_args n),
    )

abbrev pub or_built_in : Text → Option FunctionSignature → Option FunctionSignature
or_built_in name none = find_function name built_in_functions
or_built_in name (some f) = some f

-- `inferFunction`; the functions of the schema come before the built-in ones of the same name.
unfoldable pub function_type : SchemaContext → Option Loc → Text → Exprs → Typed
unfolding find_function built_in_functions arg_types count_exprs
function_type s l name args =
    call_type l name args (or_built_in name (find_function name s.functions))
