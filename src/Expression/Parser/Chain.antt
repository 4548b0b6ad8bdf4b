-- ===== src/Expression/Parser/Chain.antt =====
-- The loops over left-associative operators, and the names of types
-- (packages/lattik-expression/src/parser/parse.ts).
use lattik_studio.Prelude.{ℕ, zero, suc, Option, none, some}
use lattik_studio.Expression.DataTypes.{Scalar, unknown}
use lattik_studio.Expression.Lexer.Kinds.{
  TokenKind, and_kw, or_kw, plus, minus, star, slash, percent, pipe_pipe,
}
use lattik_studio.Expression.Nodes.{
  Loc, ExprBase, BinaryOp, add, subtract, multiply, divide, modulo, concat, and, or, Expr, binary,
  base_of,
}
use lattik_studio.Expression.Parser.State.{
  Parser, ◌>>=◌, ◌>>◌, pure, current, advance, error, expected_type,
}
use lattik_studio.Expression.Parser.Tables.{type_of_token}

-- `a.loc?.startLine ?? 1` and its like.
abbrev loc_or : Option Loc → Loc
loc_or none = record { start_line = 1; start_col = 1; stop_line = 1; stop_col = 1 }
loc_or (some l) = l

-- The location of a binary node, from its operands'.
unfoldable pub join_base : Expr → Expr → ExprBase
unfolding base_of
join_base left right =
    let a = loc_or (base_of left).loc in
    let b = loc_or (base_of right).loc in
    record {
      loc = some (record {
        start_line = a.start_line;
        start_col = a.start_col;
        stop_line = b.stop_line;
        stop_col = b.stop_col;
      });
      data_type = none;
    }

-- The operator of a token in one of the loops over a left-associative level.
unfoldable pub or_op : TokenKind → Option BinaryOp
or_op or_kw = some or
or_op _ = none

unfoldable pub and_op : TokenKind → Option BinaryOp
and_op and_kw = some and
and_op _ = none

unfoldable pub addition_op : TokenKind → Option BinaryOp
addition_op plus = some add
addition_op minus = some subtract
addition_op pipe_pipe = some concat
addition_op _ = none

unfoldable pub multiply_op : TokenKind → Option BinaryOp
multiply_op star = some multiply
multiply_op slash = some divide
multiply_op percent = some modulo
multiply_op _ = none

-- `while (this.match(...)) { right = operand(); left = { op, left, right } }`.
unfoldable pub chain : (TokenKind → Option BinaryOp) → Parser Expr → ℕ → Expr → Parser Expr
chain op operand zero left s = none
chain op operand (suc f) left s = elim (op (current s).kind) [
  | none ↦ some (left, s)
  | some o ↦
      (do advance; right ← operand; chain op operand f (binary (join_base left right) o left right))
        s
]

-- An operand, and the loop.
abbrev pub level : (TokenKind → Option BinaryOp) → Parser Expr → ℕ → Parser Expr
level op operand f = do left ← operand; chain op operand f left

-- `parseTypeName`.
unfoldable pub parse_type_name : Parser Scalar
unfolding type_of_token
parse_type_name s = elim (type_of_token (current s).kind) [
  | some t ↦ (do advance; pure t) s
  | none ↦ (do error (expected_type (current s).text); advance; pure unknown) s
]
