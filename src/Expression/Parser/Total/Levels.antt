-- ===== src/Expression/Parser/Total/Levels.antt =====
-- Rules for the helpers of the grammar's levels
-- (packages/lattik-expression/src/parser/parse.ts, `parseExpr` to `primary`).
use lattik_studio.Prelude.{
  ℕ, zero, suc, ◌≤◌, ◌≡◌, arith, length, Option, some, Option-cases, inl, inr,
}
use lattik_studio.Expression.Lexer.Kinds.{TokenKind, kind_eq}
use lattik_studio.Expression.Lexer.Scan.{Token}
use lattik_studio.Expression.Nodes.{Expr, null_literal, binary, ExprBase, BinaryOp}
use lattik_studio.Expression.Parser.State.{
  Parser, ParserState, located, current, advance, error, unexpected_token, here, nesting_too_deep,
}
use lattik_studio.Expression.Parser.Tables.{comparison_op}
use lattik_studio.Expression.Parser.Chain.{
  chain, level, multiply_op, addition_op, and_op, or_op, join_base,
}
use lattik_studio.Expression.Parser.Steps.{
  Step, Step-le, Ends, ends, Ends-pure, Ends-bind, Ends-then, Ends-inv,
}
use lattik_studio.Expression.Parser.Rules.{
  Ends-pass, Ends-seq, EndsBelow, Closed-pos, In, In-Step, NotEof, located-Ends, error-Ends,
  advance-Ends, here-Ends,
}
use lattik_studio.Expression.Parser.Levels.{literal, recover, deeper, refuse_depth, within}

pub literal-Ends :
    (node : Token → ExprBase → Expr) (tok : Token) (s : ParserState)
    → Step s s
    → Ends s (literal node tok s)
literal-Ends node tok s h =
    Ends-bind (located tok) _ (located-Ends tok s h.closed)
      λ b t st. Ends-pure (node tok b) st.closed

pub recover-Ends : {n : ℕ} → EndsBelow n recover
unfolding recover
recover-Ends s i = Ends-bind here _ (here-Ends s i.closed) λ tok t st.
    Ends-then (error (unexpected_token tok.text)) _ (error-Ends _ t st.closed) λ u su.
      Ends-then advance _ (advance-Ends u su.closed) λ v sv.
        Ends-bind (located tok) _ (located-Ends tok v sv.closed)
          λ b w sw. Ends-pure (null_literal b) sw.closed

pub refuse_depth-Ends : {n : ℕ} (start : Token) → EndsBelow n (refuse_depth start)
unfolding refuse_depth
refuse_depth-Ends start s i = Ends-then (error nesting_too_deep) _ (error-Ends _ s i.closed) λ t st.
    Ends-bind (located start) _ (located-Ends start t st.closed)
      λ b u su. Ends-pure (null_literal b) su.closed

-- A loop over operators passes a token in each round.
chain-Ends :
    (op : TokenKind → Option BinaryOp) (operand : Parser Expr) (n : ℕ)
    → ((k : TokenKind) (o : BinaryOp) → op k ≡ some o → NotEof k)
    → EndsBelow (suc n) operand
    → (g : ℕ) (left : Expr) (s : ParserState) → In (suc n) s
    → length s.rest ≤ g
    → Ends s (chain op operand g left s)
unfolding chain
chain-Ends op operand n no_eof total zero left s i h = absurd (omega (arith, Closed-pos i.closed))
chain-Ends op operand n no_eof total (suc g) left s i h =
    elim (Option-cases (op (current s).kind)) [
      | inl e ↦ rw (e, chain) (Ends-pure left i.closed)
      | inr (o, e) ↦
          rw (e, chain)
            (Ends-pass _ i.closed (no_eof (current s).kind o e) λ _ t st lt.
              Ends-seq operand _ (In-Step i st) (total t (In-Step i st)) λ right u iu su.
                chain-Ends op operand n no_eof total g (binary (join_base left right) o left right)
                  u iu (omega (arith, Step-le su)))
    ]

pub level-Ends :
    (op : TokenKind → Option BinaryOp) (operand : Parser Expr) (n : ℕ)
    → ((k : TokenKind) (o : BinaryOp) → op k ≡ some o → NotEof k)
    → EndsBelow (suc n) operand
    → EndsBelow (suc n) (level op operand n)
level-Ends op operand n no_eof total s i =
    Ends-seq operand _ i (total s i)
      λ left t it _. chain-Ends op operand n no_eof total n left t it (omega (arith, it.fewer))

pub multiply_op-NotEof : (k : TokenKind) (o : BinaryOp) → multiply_op k ≡ some o → NotEof k
unfolding multiply_op kind_eq
multiply_op-NotEof k o h = ground arith

pub addition_op-NotEof : (k : TokenKind) (o : BinaryOp) → addition_op k ≡ some o → NotEof k
unfolding addition_op kind_eq
addition_op-NotEof k o h = ground arith

pub and_op-NotEof : (k : TokenKind) (o : BinaryOp) → and_op k ≡ some o → NotEof k
unfolding and_op kind_eq
and_op-NotEof k o h = ground arith

pub or_op-NotEof : (k : TokenKind) (o : BinaryOp) → or_op k ≡ some o → NotEof k
unfolding or_op kind_eq
or_op-NotEof k o h = ground arith

pub comparison_op-NotEof : (k : TokenKind) (o : BinaryOp) → comparison_op k ≡ some o → NotEof k
unfolding comparison_op kind_eq
comparison_op-NotEof k o h = ground arith

In-deeper : {n : ℕ} {s : ParserState} → In n s → In n (deeper s)
In-deeper i = record { closed = i.closed; fewer = i.fewer }

-- The depth is restored behind a deeper part.
pub within-Ends : {A : Type 0} (p : Parser A) {n : ℕ} → EndsBelow n p → EndsBelow n (within p)
unfolding within
within-Ends p total s i =
    let (a, t, e, st) = Ends-inv (total (deeper s) (In-deeper i)) in
    rw (e, within)
      (ends (record {
        passed = st.passed;
        reads = st.reads;
        closed = st.closed;
        same_depth = omega (arith, st.same_depth);
        reported = st.reported;
        adds = st.adds;
      }))
