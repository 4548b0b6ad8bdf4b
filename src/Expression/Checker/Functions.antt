-- ===== src/Expression/Checker/Functions.antt =====
-- The built-in scalar functions: their names, numbers of arguments and result types
-- (packages/lattik-expression/src/checker/check.ts, `fn` to `BUILT_IN_FUNCTIONS`, and schema.ts).
use lattik_studio.Prelude.{
  ℕ, Bool, true, false, Option, none, some, List, [], ◌∷◌, ◌++◌, Text, codes, text_eq, get_elem?,
  if◌then◌else◌,
}
use lattik_studio.Expression.DataTypes.{
  Scalar, string, int32, int64, float, double, boolean, timestamp, date, json, null, unknown,
  DataType, data_type, common_type,
}

-- `maxArgs` is `none` for Infinity.
pub record FunctionSignature : Type 0 where
  pub name : Text
  pub min_args : ℕ
  pub max_args : Option ℕ
  pub resolve : List DataType → DataType

-- `args[i]?.scalar ?? d` and `args[0]?.nullable ?? false`.
abbrev pub scalar_at : List DataType → ℕ → Scalar → Scalar
scalar_at args i d = elim (get_elem? args i) [ some t ↦ t.scalar | none ↦ d ]

abbrev pub first_nullable : List DataType → Bool
first_nullable args = elim (get_elem? args 0) [ some t ↦ t.nullable | none ↦ false ]

-- `args[0] ?? dataType(s, n)`.
abbrev pub first_or : Scalar → Bool → List DataType → DataType
first_or s n args = elim (get_elem? args 0) [ some t ↦ t | none ↦ data_type s n ]

abbrev pub passthrough : List DataType → DataType
passthrough = first_or unknown false

abbrev pub returns_string : List DataType → DataType
returns_string args = data_type string (first_nullable args)

abbrev pub returns_double : List DataType → DataType
returns_double args = data_type double (first_nullable args)

-- `() => dataType(s, false)` and `() => dataType(s, true)`.
abbrev pub returns : Scalar → List DataType → DataType
returns s args = data_type s false

abbrev pub returns_nullable : Scalar → List DataType → DataType
returns_nullable s args = data_type s true

-- `dataType(args[0]?.scalar ?? d, args[0]?.nullable ?? false)`.
abbrev pub scalar_or : Scalar → List DataType → DataType
scalar_or d args = data_type (scalar_at args 0 d) (first_nullable args)

abbrev pub nullif_type : List DataType → DataType
nullif_type args = data_type (scalar_at args 0 unknown) true

-- `if (c) result = c;` for `c = commonType(result, t)`.
abbrev pub widen : Scalar → Scalar → Scalar
widen r t = elim (common_type r t) [ some c ↦ c | none ↦ r ]

unfoldable pub widen_all : Scalar → List DataType → Scalar
widen_all r [] = r
widen_all r (t ∷ ts) = widen_all (widen r t.scalar) ts

abbrev pub coalesce_type : List DataType → DataType
coalesce_type args = data_type (widen_all null args) false

-- GREATEST and LEAST.
abbrev pub widest_type : List DataType → DataType
widest_type [] = data_type unknown false
widest_type (t ∷ ts) = data_type (widen_all t.scalar ts) false

-- The common type of two of the arguments.
abbrev pub either_type : ℕ → ℕ → Bool → List DataType → DataType
either_type i j n args = elim (common_type (scalar_at args i unknown) (scalar_at args j unknown)) [
  | some t ↦ data_type t n
  | none ↦ data_type unknown n
]

abbrev fn : Text → ℕ → Option ℕ → (List DataType → DataType) → FunctionSignature
fn n lo hi r = record { name = n; min_args = lo; max_args = hi; resolve = r }

unfoldable pub null_functions : List FunctionSignature
null_functions =
    fn (codes "COALESCE") 1 none coalesce_type
    ∷ fn (codes "NULLIF") 2 (some 2) nullif_type
    ∷ fn (codes "NVL") 2 (some 2) (either_type 0 1 false)
    ∷ fn (codes "NVL2") 3 (some 3) (either_type 1 2 true)
    ∷ fn (codes "IFNULL") 2 (some 2) (either_type 0 1 false)
    ∷ fn (codes "NANVL") 2 (some 2) (first_or double false)
    ∷ fn (codes "IF") 3 (some 3) (either_type 1 2 true)
    ∷ []

unfoldable pub math_functions : List FunctionSignature
math_functions =
    fn (codes "ABS") 1 (some 1) passthrough
    ∷ fn (codes "CEIL") 1 (some 1) (scalar_or int64)
    ∷ fn (codes "CEILING") 1 (some 1) (scalar_or int64)
    ∷ fn (codes "FLOOR") 1 (some 1) (scalar_or int64)
    ∷ fn (codes "ROUND") 1 (some 2) (scalar_or double)
    ∷ fn (codes "BROUND") 1 (some 2) (scalar_or double)
    ∷ fn (codes "POW") 2 (some 2) (returns double)
    ∷ fn (codes "POWER") 2 (some 2) (returns double)
    ∷ fn (codes "SQRT") 1 (some 1) returns_double
    ∷ fn (codes "CBRT") 1 (some 1) returns_double
    ∷ fn (codes "LOG") 1 (some 2) returns_double
    ∷ fn (codes "LOG2") 1 (some 1) returns_double
    ∷ fn (codes "LOG10") 1 (some 1) returns_double
    ∷ fn (codes "LN") 1 (some 1) returns_double
    ∷ fn (codes "EXP") 1 (some 1) returns_double
    ∷ fn (codes "SIGN") 1 (some 1) returns_double
    ∷ fn (codes "SIGNUM") 1 (some 1) returns_double
    ∷ fn (codes "MOD") 2 (some 2) passthrough
    ∷ fn (codes "PMOD") 2 (some 2) passthrough
    ∷ fn (codes "GREATEST") 2 none widest_type
    ∷ fn (codes "LEAST") 2 none widest_type
    ∷ fn (codes "RAND") 0 (some 1) (returns double)
    ∷ fn (codes "RANDN") 0 (some 1) (returns double)
    ∷ fn (codes "POSITIVE") 1 (some 1) passthrough
    ∷ fn (codes "NEGATIVE") 1 (some 1) passthrough
    ∷ fn (codes "DEGREES") 1 (some 1) returns_double
    ∷ fn (codes "RADIANS") 1 (some 1) returns_double
    ∷ fn (codes "SIN") 1 (some 1) returns_double
    ∷ fn (codes "COS") 1 (some 1) returns_double
    ∷ fn (codes "TAN") 1 (some 1) returns_double
    ∷ fn (codes "ASIN") 1 (some 1) returns_double
    ∷ fn (codes "ACOS") 1 (some 1) returns_double
    ∷ fn (codes "ATAN") 1 (some 1) returns_double
    ∷ fn (codes "ATAN2") 2 (some 2) (returns double)
    ∷ fn (codes "BIN") 1 (some 1) (returns string)
    ∷ fn (codes "HEX") 1 (some 1) (returns string)
    ∷ fn (codes "UNHEX") 1 (some 1) (returns_nullable string)
    ∷ fn (codes "CONV") 3 (some 3) (returns_nullable string)
    ∷ []

unfoldable pub string_functions : List FunctionSignature
string_functions =
    fn (codes "LENGTH") 1 (some 1) (returns int32)
    ∷ fn (codes "CHAR_LENGTH") 1 (some 1) (returns int32)
    ∷ fn (codes "CHARACTER_LENGTH") 1 (some 1) (returns int32)
    ∷ fn (codes "BIT_LENGTH") 1 (some 1) (returns int32)
    ∷ fn (codes "OCTET_LENGTH") 1 (some 1) (returns int32)
    ∷ fn (codes "LOWER") 1 (some 1) returns_string
    ∷ fn (codes "LCASE") 1 (some 1) returns_string
    ∷ fn (codes "UPPER") 1 (some 1) returns_string
    ∷ fn (codes "UCASE") 1 (some 1) returns_string
    ∷ fn (codes "TRIM") 1 (some 3) returns_string
    ∷ fn (codes "LTRIM") 1 (some 2) returns_string
    ∷ fn (codes "RTRIM") 1 (some 2) returns_string
    ∷ fn (codes "LPAD") 2 (some 3) returns_string
    ∷ fn (codes "RPAD") 2 (some 3) returns_string
    ∷ fn (codes "REVERSE") 1 (some 1) returns_string
    ∷ fn (codes "INITCAP") 1 (some 1) returns_string
    ∷ fn (codes "TRANSLATE") 3 (some 3) returns_string
    ∷ fn (codes "REPLACE") 2 (some 3) returns_string
    ∷ fn (codes "REGEXP_REPLACE") 2 (some 3) returns_string
    ∷ fn (codes "REGEXP_EXTRACT") 2 (some 3) returns_string
    ∷ fn (codes "SPLIT") 2 (some 3) (returns json)
    ∷ fn (codes "CONCAT") 1 none (returns string)
    ∷ fn (codes "CONCAT_WS") 2 none (returns string)
    ∷ fn (codes "SUBSTRING") 2 (some 3) returns_string
    ∷ fn (codes "SUBSTR") 2 (some 3) returns_string
    ∷ fn (codes "LEFT") 2 (some 2) returns_string
    ∷ fn (codes "RIGHT") 2 (some 2) returns_string
    ∷ fn (codes "LOCATE") 2 (some 3) (returns int32)
    ∷ fn (codes "INSTR") 2 (some 2) (returns int32)
    ∷ fn (codes "FORMAT_NUMBER") 2 (some 2) (returns string)
    ∷ fn (codes "REPEAT") 2 (some 2) returns_string
    ∷ fn (codes "OVERLAY") 3 (some 4) returns_string
    ∷ fn (codes "ENCODE") 2 (some 2) (returns string)
    ∷ fn (codes "DECODE") 2 (some 2) (returns string)
    ∷ fn (codes "ASCII") 1 (some 1) (returns int32)
    ∷ fn (codes "CHR") 1 (some 1) (returns string)
    ∷ fn (codes "BASE64") 1 (some 1) (returns string)
    ∷ fn (codes "UNBASE64") 1 (some 1) (returns string)
    ∷ fn (codes "SOUNDEX") 1 (some 1) (returns string)
    ∷ fn (codes "LEVENSHTEIN") 2 (some 2) (returns int32)
    ∷ []

unfoldable pub date_functions : List FunctionSignature
date_functions =
    fn (codes "NOW") 0 (some 0) (returns timestamp)
    ∷ fn (codes "CURRENT_DATE") 0 (some 0) (returns date)
    ∷ fn (codes "CURRENT_TIMESTAMP") 0 (some 0) (returns timestamp)
    ∷ fn (codes "DATE_ADD") 2 (some 2) (returns date)
    ∷ fn (codes "DATE_SUB") 2 (some 2) (returns date)
    ∷ fn (codes "DATEDIFF") 2 (some 2) (returns int32)
    ∷ fn (codes "MONTHS_BETWEEN") 2 (some 3) (returns double)
    ∷ fn (codes "ADD_MONTHS") 2 (some 2) (returns date)
    ∷ fn (codes "DATE_FORMAT") 2 (some 2) (returns string)
    ∷ fn (codes "TO_DATE") 1 (some 2) (returns_nullable date)
    ∷ fn (codes "TO_TIMESTAMP") 1 (some 2) (returns_nullable timestamp)
    ∷ fn (codes "FROM_UNIXTIME") 1 (some 2) (returns string)
    ∷ fn (codes "UNIX_TIMESTAMP") 0 (some 2) (returns int64)
    ∷ fn (codes "YEAR") 1 (some 1) (returns int32)
    ∷ fn (codes "MONTH") 1 (some 1) (returns int32)
    ∷ fn (codes "DAY") 1 (some 1) (returns int32)
    ∷ fn (codes "DAYOFMONTH") 1 (some 1) (returns int32)
    ∷ fn (codes "HOUR") 1 (some 1) (returns int32)
    ∷ fn (codes "MINUTE") 1 (some 1) (returns int32)
    ∷ fn (codes "SECOND") 1 (some 1) (returns int32)
    ∷ fn (codes "DAYOFWEEK") 1 (some 1) (returns int32)
    ∷ fn (codes "DAYOFYEAR") 1 (some 1) (returns int32)
    ∷ fn (codes "WEEKOFYEAR") 1 (some 1) (returns int32)
    ∷ fn (codes "QUARTER") 1 (some 1) (returns int32)
    ∷ fn (codes "LAST_DAY") 1 (some 1) (returns date)
    ∷ fn (codes "NEXT_DAY") 2 (some 2) (returns date)
    ∷ fn (codes "DATE_TRUNC") 2 (some 2) (returns timestamp)
    ∷ fn (codes "TRUNC") 1 (some 2) (returns date)
    ∷ fn (codes "MAKE_DATE") 3 (some 3) (returns date)
    ∷ fn (codes "MAKE_TIMESTAMP") 6 (some 7) (returns timestamp)
    ∷ []

unfoldable pub window_functions : List FunctionSignature
window_functions =
    fn (codes "ROW_NUMBER") 0 (some 0) (returns int64)
    ∷ fn (codes "RANK") 0 (some 0) (returns int32)
    ∷ fn (codes "DENSE_RANK") 0 (some 0) (returns int32)
    ∷ fn (codes "NTILE") 1 (some 1) (returns int32)
    ∷ fn (codes "LAG") 1 (some 3) passthrough
    ∷ fn (codes "LEAD") 1 (some 3) passthrough
    ∷ fn (codes "FIRST_VALUE") 1 (some 2) passthrough
    ∷ fn (codes "LAST_VALUE") 1 (some 2) passthrough
    ∷ fn (codes "NTH_VALUE") 2 (some 2) passthrough
    ∷ fn (codes "CUME_DIST") 0 (some 0) (returns double)
    ∷ fn (codes "PERCENT_RANK") 0 (some 0) (returns double)
    ∷ []

unfoldable pub hash_functions : List FunctionSignature
hash_functions =
    fn (codes "HASH") 1 none (returns int32)
    ∷ fn (codes "XXHASH64") 1 none (returns int64)
    ∷ fn (codes "MD5") 1 (some 1) (returns string)
    ∷ fn (codes "SHA1") 1 (some 1) (returns string)
    ∷ fn (codes "SHA") 1 (some 1) (returns string)
    ∷ fn (codes "SHA2") 2 (some 2) (returns string)
    ∷ fn (codes "CRC32") 1 (some 1) (returns int64)
    ∷ []

unfoldable pub array_functions : List FunctionSignature
array_functions =
    fn (codes "SIZE") 1 (some 1) (returns int32)
    ∷ fn (codes "ARRAY_CONTAINS") 2 (some 2) (returns boolean)
    ∷ fn (codes "ARRAY_DISTINCT") 1 (some 1) (returns json)
    ∷ fn (codes "ARRAY_UNION") 2 (some 2) (returns json)
    ∷ fn (codes "ARRAY_INTERSECT") 2 (some 2) (returns json)
    ∷ fn (codes "ARRAY_EXCEPT") 2 (some 2) (returns json)
    ∷ fn (codes "ARRAY_JOIN") 2 (some 3) (returns string)
    ∷ fn (codes "ARRAY_POSITION") 2 (some 2) (returns int64)
    ∷ fn (codes "ARRAY_SORT") 1 (some 1) (returns json)
    ∷ fn (codes "FLATTEN") 1 (some 1) (returns json)
    ∷ fn (codes "SEQUENCE") 2 (some 3) (returns json)
    ∷ fn (codes "SORT_ARRAY") 1 (some 2) (returns json)
    ∷ fn (codes "SLICE") 3 (some 3) (returns json)
    ∷ fn (codes "ELEMENT_AT") 2 (some 2) (first_or unknown true)
    ∷ fn (codes "EXPLODE") 1 (some 1) (first_or unknown false)
    ∷ fn (codes "POSEXPLODE") 1 (some 1) (first_or unknown false)
    ∷ fn (codes "INLINE") 1 (some 1) (first_or unknown false)
    ∷ []

unfoldable pub map_functions : List FunctionSignature
map_functions =
    fn (codes "MAP_KEYS") 1 (some 1) (returns json)
    ∷ fn (codes "MAP_VALUES") 1 (some 1) (returns json)
    ∷ fn (codes "MAP_FROM_ARRAYS") 2 (some 2) (returns json)
    ∷ fn (codes "MAP_CONCAT") 1 none (returns json)
    ∷ fn (codes "STR_TO_MAP") 1 (some 3) (returns json)
    ∷ []

unfoldable pub json_functions : List FunctionSignature
json_functions =
    fn (codes "GET_JSON_OBJECT") 2 (some 2) (returns_nullable string)
    ∷ fn (codes "JSON_TUPLE") 2 none (returns_nullable string)
    ∷ fn (codes "FROM_JSON") 2 (some 3) (returns json)
    ∷ fn (codes "TO_JSON") 1 (some 2) (returns string)
    ∷ fn (codes "SCHEMA_OF_JSON") 1 (some 1) (returns string)
    ∷ []

unfoldable pub conversion_functions : List FunctionSignature
conversion_functions =
    fn (codes "INT") 1 (some 1) (returns_nullable int32)
    ∷ fn (codes "BIGINT") 1 (some 1) (returns_nullable int64)
    ∷ fn (codes "FLOAT") 1 (some 1) (returns_nullable float)
    ∷ fn (codes "DOUBLE") 1 (some 1) (returns_nullable double)
    ∷ fn (codes "STRING") 1 (some 1) (returns string)
    ∷ fn (codes "BOOLEAN") 1 (some 1) (returns_nullable boolean)
    ∷ fn (codes "DATE") 1 (some 1) (returns_nullable date)
    ∷ fn (codes "TIMESTAMP") 1 (some 1) (returns_nullable timestamp)
    ∷ []

-- `BUILT_IN_FUNCTIONS`.
unfoldable pub built_in_functions : List FunctionSignature
unfolding null_functions math_functions string_functions date_functions window_functions
    hash_functions array_functions map_functions json_functions conversion_functions
built_in_functions =
    null_functions ++ math_functions ++ string_functions ++ date_functions ++ window_functions
    ++ hash_functions ++ array_functions ++ map_functions ++ json_functions ++ conversion_functions

-- `Map.get` on entries that carry their own key.
unfoldable pub find_function : Text → List FunctionSignature → Option FunctionSignature
find_function name [] = none
find_function name (f ∷ fs) = if text_eq f.name name then some f else find_function name fs
