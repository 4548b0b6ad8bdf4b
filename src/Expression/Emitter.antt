-- ===== src/Expression/Emitter.antt =====
-- The printing of an expression (packages/lattik-expression/src/emitter/emit-sql.ts). The option
-- `pretty` is not read there.
pub mod Strings
mod Examples
use lattik_studio.Prelude.{
  ℕ, Bool, true, false, Option, none, some, List, [], ◌∷◌, ◌++◌, Text, codes, text_eq, mem_text,
  to_upper, ltb, leb, ◌==◌, ◌&&◌, ◌||◌, not, if◌then◌else◌,
}
use lattik_studio.Expression.DataTypes.{Scalar, scalar_name}
use lattik_studio.Expression.Nodes.{
  Expr, int_literal, float_literal, string_literal, bool_literal, null_literal, column_ref,
  star_expr, binary, unary, between, in_list, is_null, like, case_expr, cast, function_call,
  aggregate_call, window, Exprs, no_exprs, expr_cons, OptExpr, absent, present, Whens, no_whens,
  when_cons, OrderItems, no_items, item_cons, FrameBound, unbounded_preceding, current_row,
  unbounded_following, preceding, following, OptFrame, no_frame, frame_from, frame_between,
  BinaryOp, add, subtract, multiply, divide, modulo, concat, equal, unequal, differ, less,
  less_equal, greater, greater_equal, and, or, UnaryOp, negate, logical_not, Direction, asc, desc,
  NullsOrder, first, last, FrameKind, rows, range,
}

unfoldable pub precedence : BinaryOp → ℕ
precedence or = 1
precedence and = 2
precedence equal = 3
precedence unequal = 3
precedence differ = 3
precedence less = 3
precedence less_equal = 3
precedence greater = 3
precedence greater_equal = 3
precedence add = 4
precedence subtract = 4
precedence concat = 4
precedence multiply = 5
precedence divide = 5
precedence modulo = 5

unfoldable pub op_text : BinaryOp → Text
op_text or = codes "OR"
op_text and = codes "AND"
op_text equal = codes "="
op_text unequal = codes "!="
op_text differ = codes "<>"
op_text less = codes "<"
op_text less_equal = codes "<="
op_text greater = codes ">"
op_text greater_equal = codes ">="
op_text add = codes "+"
op_text subtract = codes "-"
op_text concat = codes "||"
op_text multiply = codes "*"
op_text divide = codes "/"
op_text modulo = codes "%"

-- `SQL_KEYWORDS`.
unfoldable pub sql_keywords : List Text
sql_keywords =
    codes "SELECT"
    ∷ codes "FROM"
    ∷ codes "WHERE"
    ∷ codes "INSERT"
    ∷ codes "UPDATE"
    ∷ codes "DELETE"
    ∷ codes "CREATE"
    ∷ codes "DROP"
    ∷ codes "ALTER"
    ∷ codes "TABLE"
    ∷ codes "INDEX"
    ∷ codes "VIEW"
    ∷ codes "DATABASE"
    ∷ codes "SCHEMA"
    ∷ codes "GRANT"
    ∷ codes "REVOKE"
    ∷ codes "NULL"
    ∷ codes "TRUE"
    ∷ codes "FALSE"
    ∷ codes "AND"
    ∷ codes "OR"
    ∷ codes "NOT"
    ∷ codes "IN"
    ∷ codes "BETWEEN"
    ∷ codes "LIKE"
    ∷ codes "IS"
    ∷ codes "AS"
    ∷ codes "ON"
    ∷ codes "JOIN"
    ∷ codes "LEFT"
    ∷ codes "RIGHT"
    ∷ codes "INNER"
    ∷ codes "OUTER"
    ∷ codes "CROSS"
    ∷ codes "GROUP"
    ∷ codes "ORDER"
    ∷ codes "BY"
    ∷ codes "HAVING"
    ∷ codes "LIMIT"
    ∷ codes "OFFSET"
    ∷ codes "UNION"
    ∷ codes "ALL"
    ∷ codes "DISTINCT"
    ∷ codes "CASE"
    ∷ codes "WHEN"
    ∷ codes "THEN"
    ∷ codes "ELSE"
    ∷ codes "END"
    ∷ codes "CAST"
    ∷ codes "EXISTS"
    ∷ codes "ASC"
    ∷ codes "DESC"
    ∷ codes "OVER"
    ∷ codes "PARTITION"
    ∷ codes "ROWS"
    ∷ codes "RANGE"
    ∷ codes "UNBOUNDED"
    ∷ codes "PRECEDING"
    ∷ codes "FOLLOWING"
    ∷ codes "CURRENT"
    ∷ codes "ROW"
    ∷ codes "FILTER"
    ∷ []

-- `text.replace(/q/g, "qq")` for a quote `q`.
unfoldable pub double_quotes : ℕ → Text → Text
double_quotes q [] = []
double_quotes q (c ∷ cs) = if c == q then q ∷ q ∷ double_quotes q cs else c ∷ double_quotes q cs

abbrev starts_word : ℕ → Bool
starts_word c = (leb b'a' c && leb c b'z') || ((leb b'A' c && leb c b'Z') || (c == b'_'))

abbrev in_word : ℕ → Bool
in_word c = starts_word c || (leb b'0' c && leb c b'9')

unfoldable pub all_in_word : Text → Bool
all_in_word [] = true
all_in_word (c ∷ cs) = in_word c && all_in_word cs

-- The test of `/^[a-zA-Z_][a-zA-Z0-9_]*$/`.
abbrev pub is_plain_word : Text → Bool
is_plain_word [] = false
is_plain_word (c ∷ cs) = starts_word c && all_in_word cs

unfoldable pub emit_ident : Text → Text
unfolding all_in_word sql_keywords double_quotes to_upper mem_text
emit_ident name =
    if is_plain_word name && not (mem_text (to_upper name) sql_keywords)
    then name
    else 34 ∷ (double_quotes 34 name ++ 34 ∷ [])

-- `parts.join(separator)`.
unfoldable pub join_texts : Text → List Text → Text
join_texts sep [] = []
join_texts sep (t ∷ []) = t
join_texts sep (t ∷ u ∷ ts) = t ++ (sep ++ join_texts sep (u ∷ ts))

abbrev comma_sep : Text
comma_sep = codes ", "

abbrev pub words : List Text → Text
words = join_texts (codes " ")

-- A table's name, which `if (table)` takes for missing when it is empty.
abbrev pub emit_qualified : Option Text → Text → Text
emit_qualified none name = name
emit_qualified (some []) name = name
emit_qualified (some (c ∷ cs)) name = emit_ident (c ∷ cs) ++ (b'.' ∷ name)

abbrev child_precedence : Expr → Option ℕ
child_precedence (binary b op l r) = some (precedence op)
child_precedence (int_literal b v) = none
child_precedence (float_literal b v) = none
child_precedence (string_literal b v) = none
child_precedence (bool_literal b v) = none
child_precedence (null_literal b) = none
child_precedence (column_ref b t c) = none
child_precedence (star_expr b t) = none
child_precedence (unary b op e) = none
child_precedence (between b e lo hi n) = none
child_precedence (in_list b e vs n) = none
child_precedence (is_null b e n) = none
child_precedence (like b e p n) = none
child_precedence (case_expr b o ws e) = none
child_precedence (cast b e t) = none
child_precedence (function_call b n es) = none
child_precedence (aggregate_call b n es d f) = none
child_precedence (window b f ps os fr) = none

abbrev in_parens : Text → Text
in_parens sql = 40 ∷ (sql ++ 41 ∷ [])

abbrev guarded : Option ℕ → ℕ → Bool → Text → Text
guarded none parent on_right sql = sql
guarded (some p) parent on_right sql =
    if ltb p parent || ((p == parent) && on_right) then in_parens sql else sql

-- `emitWithParens` on a child that is printed already.
unfoldable pub with_parens : Expr → Text → ℕ → Bool → Text
unfolding precedence
with_parens child sql parent on_right = guarded (child_precedence child) parent on_right sql

abbrev choose : Bool → Text → Text → Text
choose b x y = if b then x else y

abbrev nulls_text : Option NullsOrder → Text
nulls_text none = []
nulls_text (some first) = codes " NULLS FIRST"
nulls_text (some last) = codes " NULLS LAST"

abbrev direction_text : Direction → Text
direction_text asc = []
direction_text desc = codes " DESC"

abbrev kind_text : FrameKind → Text
kind_text rows = codes "ROWS"
kind_text range = codes "RANGE"

abbrev unary_text : UnaryOp → Expr → Text → Text
unary_text negate e sql = b'-' ∷ with_parens e sql 6 false
unary_text logical_not e sql = codes "NOT " ++ with_parens e sql 2 false

-- A list of expressions under a heading, or no part.
abbrev under_heading : Text → List Text → List Text
under_heading heading [] = []
under_heading heading (t ∷ ts) = (heading ++ join_texts comma_sep (t ∷ ts)) ∷ []

unfoldable mutual
  unfolding with_parens op_text emit_ident join_texts double_quotes precedence scalar_name to_upper

  pub emit_sql : Expr → Text
  emit_sql (int_literal b v) = v
  emit_sql (float_literal b v) = v
  emit_sql (string_literal b v) = 39 ∷ (double_quotes 39 v ++ 39 ∷ [])
  emit_sql (bool_literal b v) = choose v (codes "TRUE") (codes "FALSE")
  emit_sql (null_literal b) = codes "NULL"
  emit_sql (column_ref b t c) = emit_qualified t (emit_ident c)
  emit_sql (star_expr b t) = emit_qualified t (b'*' ∷ [])
  emit_sql (binary b op l r) = words (
      with_parens l (emit_sql l) (precedence op) false
      ∷ op_text op
      ∷ with_parens r (emit_sql r) (precedence op) true
      ∷ [])
  emit_sql (unary b op e) = unary_text op e (emit_sql e)
  emit_sql (between b e lo hi n) = words (
      emit_sql e
      ∷ choose n (codes "NOT BETWEEN") (codes "BETWEEN")
      ∷ emit_sql lo
      ∷ codes "AND"
      ∷ emit_sql hi
      ∷ [])
  emit_sql (in_list b e vs n) = words (
      emit_sql e
      ∷ choose n (codes "NOT IN") (codes "IN")
      ∷ in_parens (join_texts comma_sep (emit_exprs vs))
      ∷ [])
  emit_sql (is_null b e n) =
      words (emit_sql e ∷ codes "IS" ∷ choose n (codes "NOT NULL") (codes "NULL") ∷ [])
  emit_sql (like b e p n) =
      words (emit_sql e ∷ choose n (codes "NOT LIKE") (codes "LIKE") ∷ emit_sql p ∷ [])
  emit_sql (case_expr b o ws e) = words (
      codes "CASE"
      ∷ (emit_optional [] o
          ++ (emit_whens ws ++ (emit_optional (codes "ELSE ") e ++ codes "END" ∷ []))))
  emit_sql (cast b e t) =
      codes "CAST(" ++ (emit_sql e ++ (codes " AS " ++ (to_upper (scalar_name t) ++ 41 ∷ [])))
  emit_sql (function_call b n es) = n ++ in_parens (join_texts comma_sep (emit_exprs es))
  emit_sql (aggregate_call b n es d f) =
      n
      ++ (in_parens (choose d (codes "DISTINCT ") [] ++ join_texts comma_sep (emit_exprs es))
          ++ emit_filter f)
  emit_sql (window b f ps os fr) =
      emit_sql f
      ++ (codes " OVER "
          ++ in_parens (
              words (
                under_heading (codes "PARTITION BY ") (emit_exprs ps)
                ++ (under_heading (codes "ORDER BY ") (emit_items os) ++ emit_frame fr))))

  pub emit_exprs : Exprs → List Text
  emit_exprs no_exprs = []
  emit_exprs (expr_cons e es) = emit_sql e ∷ emit_exprs es

  pub emit_optional : Text → OptExpr → List Text
  emit_optional heading absent = []
  emit_optional heading (present e) = (heading ++ emit_sql e) ∷ []

  pub emit_filter : OptExpr → Text
  emit_filter absent = []
  emit_filter (present e) = codes " FILTER (WHERE " ++ (emit_sql e ++ 41 ∷ [])

  pub emit_whens : Whens → List Text
  emit_whens no_whens = []
  emit_whens (when_cons c r ws) =
      (codes "WHEN " ++ (emit_sql c ++ (codes " THEN " ++ emit_sql r))) ∷ emit_whens ws

  pub emit_items : OrderItems → List Text
  emit_items no_items = []
  emit_items (item_cons e d n os) =
      (emit_sql e ++ (direction_text d ++ nulls_text n)) ∷ emit_items os

  pub emit_offset : OptExpr → Text
  emit_offset absent = codes "1"
  emit_offset (present e) = emit_sql e

  pub emit_bound : FrameBound → Text
  emit_bound unbounded_preceding = codes "UNBOUNDED PRECEDING"
  emit_bound unbounded_following = codes "UNBOUNDED FOLLOWING"
  emit_bound current_row = codes "CURRENT ROW"
  emit_bound (preceding o) = emit_offset o ++ codes " PRECEDING"
  emit_bound (following o) = emit_offset o ++ codes " FOLLOWING"

  pub emit_frame : OptFrame → List Text
  emit_frame no_frame = []
  emit_frame (frame_from k s) = words (kind_text k ∷ emit_bound s ∷ []) ∷ []
  emit_frame (frame_between k s e) =
      words (kind_text k ∷ emit_bound s ∷ codes "AND" ∷ emit_bound e ∷ []) ∷ []
