-- ===== src/Expression/Examples.antt =====
-- Runs of the expression language on concrete inputs, and applications of its theorems to them.
use lattik_studio.Prelude.{
  ◌≡◌, refl, true, false, none, some, List, [], ◌∷◌, Text, codes, All, arith,
}
use lattik_studio.Expression.DataTypes.{
  Scalar, int32, float, double, date, timestamp, string, common_type, data_type,
}
use lattik_studio.Expression.DataTypes.Laws.{coerces, common_type_comm, common_type_least}
use lattik_studio.Expression.Lexer.Kinds.{kind_eq, integer, eof}
use lattik_studio.Expression.Lexer.Scan.{Token, LexResult, tokenize}
use lattik_studio.Expression.Lexer.Total.{Closed, last, more, StandsIn, tokenize_total}
use lattik_studio.Expression.Nodes.{ExprBase, Expr, column_ref, int_literal, binary, add}
use lattik_studio.Expression.Parser.State.{ParserState}
use lattik_studio.Expression.Parser.Levels.{parse_expr}
use lattik_studio.Expression.Parser.Parse.{ParseResult, Cache, parse, parse_fresh, parse_start}
use lattik_studio.Expression.Parser.Steps.{Step}
use lattik_studio.Expression.Parser.Laws.{
  Verdict, parse_fresh_total, IsSound, parse_transparent, parse_expr_total,
}
use lattik_studio.Expression.Checker.Columns.{
  ColumnInfo, SchemaContext, matching, meant, matching_lem,
}
use lattik_studio.Expression.Checker.Infer.{infer}
use lattik_studio.Expression.Checker.Again.{infer_again}
use lattik_studio.Expression.Checker.Typed.{AllTyped, infer_typed}

common_type_comm_example : common_type date timestamp ≡ common_type timestamp date
common_type_comm_example = common_type_comm date timestamp

common_type_least_example :
    (c : Scalar) × (common_type int32 float ≡ some c)
    × (coerces int32 c ≡ true)
    × (coerces float c ≡ true)
    × (coerces c double ≡ true)
common_type_least_example =
    common_type_least int32 float double (λ e. ground arith) (λ e. ground arith) refl refl

-- `a <= 'x'` behind a comment and a line break.
abbrev input : Text
input = codes "-- c\na <= 'x'"

tokenize_total_example :
    (r : LexResult) × (tokenize input ≡ some r) × Closed r.tokens × All (StandsIn input) r.tokens
tokenize_total_example = tokenize_total input

parse_fresh_total_example : (r : ParseResult) × (parse_fresh input ≡ some r) × Verdict r
parse_fresh_total_example = parse_fresh_total input

empty_cache-IsSound : IsSound []
empty_cache-IsSound = record { fresh = tt; bounded = omega arith }

parse_transparent_example :
    (r : ParseResult) × (m : Cache) × (parse input [] ≡ some (r, m))
    × (parse_fresh input ≡ some r)
    × IsSound m
parse_transparent_example = parse_transparent input [] empty_cache-IsSound

-- The tokens of `7`.
abbrev seven : List Token
seven =
    (record { kind = integer; text = codes "7"; line = 1; col = 1 })
    ∷ (record { kind = eof; text = []; line = 1; col = 2 })
    ∷ []

parse_expr_total_example :
    (e : Expr) × (t : ParserState) × (parse_expr 2 (parse_start seven) ≡ some (e, t))
    × Step (parse_start seven) t
unfolding kind_eq
parse_expr_total_example =
    parse_expr_total 2 (parse_start seven) (more _ refl (last _ refl)) (omega arith)

-- Two tables with a column of the same name up to case.
abbrev two_tables : List ColumnInfo
two_tables =
    (record { name = codes "Id"; data_type = data_type int32 false; table = some (codes "a") })
    ∷ (record { name = codes "ID"; data_type = data_type string true; table = some (codes "b") })
    ∷ []

abbrev schema : SchemaContext
schema = record { columns = two_tables; functions = [] }

abbrev no_schema : SchemaContext
no_schema = record { columns = []; functions = [] }

matching_lem_example :
    matching schema (some (codes "b")) (codes "iD")
    ≡ meant (some (codes "b")) (codes "iD") two_tables
matching_lem_example = matching_lem schema (some (codes "b")) (codes "iD")

abbrev no_base : ExprBase
no_base = record { data_type = none; loc = none }

-- `a.id + 7`.
abbrev sum : Expr
sum =
    binary no_base add (column_ref no_base (some (codes "a")) (codes "id"))
      (int_literal no_base (codes "7"))

infer_again_example : infer schema (infer no_schema sum).0 ≡ infer schema sum
infer_again_example = infer_again no_schema schema sum

infer_typed_example : AllTyped (infer schema sum).0
infer_typed_example = infer_typed schema sum
