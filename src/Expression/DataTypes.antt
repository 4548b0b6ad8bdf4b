-- ===== src/Expression/DataTypes.antt =====
-- The scalar types of expressions and their coercions
-- (packages/lattik-expression/src/ast/data-types.ts).
pub mod Laws
use lattik_studio.Prelude.{
  ℕ, Bool, true, false, Option, none, some, Text, codes, text_eq, to_upper, leb, ◌==◌,
  if◌then◌else◌, ◌&&◌, ◌||◌, not, map, ◌+◌,
}

pub data Scalar : Type 0 where
  string int32 int64 float double boolean timestamp date json null unknown : Scalar

pub record DataType : Type 0 where
  pub scalar : Scalar
  pub nullable : Bool

abbrev pub data_type : Scalar → Bool → DataType
data_type s n = record { scalar = s; nullable = n }

-- `===` between scalar kinds.
abbrev pub scalar_code : Scalar → ℕ
scalar_code string = 0
scalar_code int32 = 1
scalar_code int64 = 2
scalar_code float = 3
scalar_code double = 4
scalar_code boolean = 5
scalar_code timestamp = 6
scalar_code date = 7
scalar_code json = 8
scalar_code null = 9
scalar_code unknown = 10

abbrev pub scalar_eq : Scalar → Scalar → Bool
scalar_eq a b = scalar_code a == scalar_code b

-- `NUMERIC_TYPES.has(t)`.
unfoldable pub is_numeric : Scalar → Bool
is_numeric int32 = true
is_numeric int64 = true
is_numeric float = true
is_numeric double = true
is_numeric _ = false

-- `INTEGRAL_TYPES.has(t)`.
unfoldable pub is_integral : Scalar → Bool
is_integral int32 = true
is_integral int64 = true
is_integral _ = false

unfoldable pub is_comparable : Scalar → Bool
is_comparable t = not (scalar_eq t json) && not (scalar_eq t unknown)

-- `NUMERIC_RANK[a]`; `none` is the missing key.
unfoldable pub numeric_rank : Scalar → Option ℕ
numeric_rank int32 = some 0
numeric_rank int64 = some 1
numeric_rank float = some 2
numeric_rank double = some 3
numeric_rank _ = none

abbrev wider : Scalar → Scalar → Option ℕ → Option ℕ → Option Scalar
wider a b (some ra) (some rb) = some (if leb rb ra then a else b)
wider a b (some ra) none = none
wider a b none rb = none

unfoldable pub promote_numeric : Scalar → Scalar → Option Scalar
unfolding numeric_rank
promote_numeric a b = wider a b (numeric_rank a) (numeric_rank b)

-- The last two tests of `commonType`, after the promotion of numbers.
abbrev date_or_none : Scalar → Scalar → Option Scalar → Option Scalar
date_or_none a b (some p) = some p
date_or_none a b none =
    if (scalar_eq a timestamp && scalar_eq b date) || (scalar_eq a date && scalar_eq b timestamp)
    then some timestamp
    else none

unfoldable pub common_type : Scalar → Scalar → Option Scalar
unfolding promote_numeric
common_type a b =
    if scalar_eq a b
    then some a
    else if scalar_eq a null
    then some b
    else if scalar_eq b null
    then some a
    else if scalar_eq a unknown || scalar_eq b unknown
    then some unknown
    else date_or_none a b (promote_numeric a b)

-- `toLowerCase` on the letters A to Z; every other code unit is left as it is.
abbrev pub lower_unit : ℕ → ℕ
lower_unit c = if leb b'A' c && leb c b'Z' then c + 32 else c

unfoldable pub to_lower : Text → Text
to_lower = map lower_unit

-- The name by which a column type is written.
unfoldable pub scalar_name : Scalar → Text
scalar_name string = codes "string"
scalar_name int32 = codes "int32"
scalar_name int64 = codes "int64"
scalar_name float = codes "float"
scalar_name double = codes "double"
scalar_name boolean = codes "boolean"
scalar_name timestamp = codes "timestamp"
scalar_name date = codes "date"
scalar_name json = codes "json"
scalar_name null = codes "null"
scalar_name unknown = codes "unknown"

-- The tests of `fromColumnType` on the normalised name.
abbrev from_normalized : Text → Scalar
from_normalized t =
    if text_eq t (codes "string")
    then string
    else if text_eq t (codes "int32")
    then int32
    else if text_eq t (codes "int64")
    then int64
    else if text_eq t (codes "float")
    then float
    else if text_eq t (codes "double")
    then double
    else if text_eq t (codes "boolean")
    then boolean
    else if text_eq t (codes "timestamp")
    then timestamp
    else if text_eq t (codes "date")
    then date
    else if text_eq t (codes "json")
    then json
    else unknown

unfoldable pub from_column_type : Text → Scalar
unfolding to_lower text_eq
from_column_type s = from_normalized (to_lower s)
