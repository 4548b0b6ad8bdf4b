-- ===== src/Expression/Lexer/Kinds.antt =====
-- The kinds of tokens and the keyword tables of the lexer
-- (packages/lattik-expression/src/parser/lexer.ts, its types and tables).
use lattik_studio.Prelude.{
  ℕ, Bool, Option, none, some, List, [], ◌∷◌, Text, codes, text_eq, ◌==◌, if◌then◌else◌,
}

-- A keyword's constructor ends in `_kw`.
pub data TokenKind : Type 0 where
  integer decimal string_token ident and_kw or_kw not_kw is_kw null_kw true_kw false_kw in_kw
        between_kw like_kw case_kw when_kw then_kw else_kw end_kw cast_kw as_kw over_kw partition_kw
        by_kw order_kw asc_kw desc_kw rows_kw range_kw unbounded_kw preceding_kw following_kw
        current_kw row_kw filter_kw where_kw distinct_kw nulls_kw first_kw last_kw string_type
        int32_type int64_type float_type double_type boolean_type timestamp_type date_type json_type
        plus minus star slash percent pipe_pipe eq neq ltgt lt lte gt gte lparen rparen comma dot
        eof :
      TokenKind

-- A number for each kind, by which kinds are compared.
unfoldable pub kind_code : TokenKind → ℕ
kind_code integer = 0
kind_code decimal = 1
kind_code string_token = 2
kind_code ident = 3
kind_code and_kw = 4
kind_code or_kw = 5
kind_code not_kw = 6
kind_code is_kw = 7
kind_code null_kw = 8
kind_code true_kw = 9
kind_code false_kw = 10
kind_code in_kw = 11
kind_code between_kw = 12
kind_code like_kw = 13
kind_code case_kw = 14
kind_code when_kw = 15
kind_code then_kw = 16
kind_code else_kw = 17
kind_code end_kw = 18
kind_code cast_kw = 19
kind_code as_kw = 20
kind_code over_kw = 21
kind_code partition_kw = 22
kind_code by_kw = 23
kind_code order_kw = 24
kind_code asc_kw = 25
kind_code desc_kw = 26
kind_code rows_kw = 27
kind_code range_kw = 28
kind_code unbounded_kw = 29
kind_code preceding_kw = 30
kind_code following_kw = 31
kind_code current_kw = 32
kind_code row_kw = 33
kind_code filter_kw = 34
kind_code where_kw = 35
kind_code distinct_kw = 36
kind_code nulls_kw = 37
kind_code first_kw = 38
kind_code last_kw = 39
kind_code string_type = 40
kind_code int32_type = 41
kind_code int64_type = 42
kind_code float_type = 43
kind_code double_type = 44
kind_code boolean_type = 45
kind_code timestamp_type = 46
kind_code date_type = 47
kind_code json_type = 48
kind_code plus = 49
kind_code minus = 50
kind_code star = 51
kind_code slash = 52
kind_code percent = 53
kind_code pipe_pipe = 54
kind_code eq = 55
kind_code neq = 56
kind_code ltgt = 57
kind_code lt = 58
kind_code lte = 59
kind_code gt = 60
kind_code gte = 61
kind_code lparen = 62
kind_code rparen = 63
kind_code comma = 64
kind_code dot = 65
kind_code eof = 66

-- `===` between kinds.
unfoldable pub kind_eq : TokenKind → TokenKind → Bool
unfolding kind_code
kind_eq a b = kind_code a == kind_code b

unfoldable pub mem_kind : TokenKind → List TokenKind → Bool
unfolding kind_eq
mem_kind k [] = Bool.false
mem_kind k (j ∷ js) = if kind_eq k j then Bool.true else mem_kind k js

-- `KEYWORDS`.
unfoldable pub keywords : List (Text × TokenKind)
keywords =
    (codes "AND", and_kw)
    ∷ (codes "OR", or_kw)
    ∷ (codes "NOT", not_kw)
    ∷ (codes "IS", is_kw)
    ∷ (codes "NULL", null_kw)
    ∷ (codes "TRUE", true_kw)
    ∷ (codes "FALSE", false_kw)
    ∷ (codes "IN", in_kw)
    ∷ (codes "BETWEEN", between_kw)
    ∷ (codes "LIKE", like_kw)
    ∷ (codes "CASE", case_kw)
    ∷ (codes "WHEN", when_kw)
    ∷ (codes "THEN", then_kw)
    ∷ (codes "ELSE", else_kw)
    ∷ (codes "END", end_kw)
    ∷ (codes "CAST", cast_kw)
    ∷ (codes "AS", as_kw)
    ∷ (codes "OVER", over_kw)
    ∷ (codes "PARTITION", partition_kw)
    ∷ (codes "BY", by_kw)
    ∷ (codes "ORDER", order_kw)
    ∷ (codes "ASC", asc_kw)
    ∷ (codes "DESC", desc_kw)
    ∷ (codes "ROWS", rows_kw)
    ∷ (codes "RANGE", range_kw)
    ∷ (codes "UNBOUNDED", unbounded_kw)
    ∷ (codes "PRECEDING", preceding_kw)
    ∷ (codes "FOLLOWING", following_kw)
    ∷ (codes "CURRENT", current_kw)
    ∷ (codes "ROW", row_kw)
    ∷ (codes "FILTER", filter_kw)
    ∷ (codes "WHERE", where_kw)
    ∷ (codes "DISTINCT", distinct_kw)
    ∷ (codes "NULLS", nulls_kw)
    ∷ (codes "FIRST", first_kw)
    ∷ (codes "LAST", last_kw)
    ∷ []

-- `TYPE_KEYWORDS`.
unfoldable pub type_keywords : List (Text × TokenKind)
type_keywords =
    (codes "STRING", string_type)
    ∷ (codes "INT32", int32_type)
    ∷ (codes "INT64", int64_type)
    ∷ (codes "FLOAT", float_type)
    ∷ (codes "DOUBLE", double_type)
    ∷ (codes "BOOLEAN", boolean_type)
    ∷ (codes "TIMESTAMP", timestamp_type)
    ∷ (codes "DATE", date_type)
    ∷ (codes "JSON", json_type)
    ∷ []

-- A key of a table, `none` where the table has no such key.
unfoldable pub lookup_kind : Text → List (Text × TokenKind) → Option TokenKind
lookup_kind t [] = none
lookup_kind t ((k, v) ∷ m) = if text_eq t k then some v else lookup_kind t m
