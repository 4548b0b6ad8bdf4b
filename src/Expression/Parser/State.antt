-- ===== src/Expression/Parser/State.antt =====
-- The parser's state, its helpers, and the monad in which the grammar is written
-- (packages/lattik-expression/src/parser/parse.ts, `Parser` up to `loc`).
use lattik_studio.Prelude.{
  ℕ, ◌+◌, Bool, true, false, Option, none, some, List, [], ◌∷◌, ◌++◌, Text, length, if◌then◌else◌,
}
use lattik_studio.Expression.Lexer.Kinds.{TokenKind, eof, kind_eq, mem_kind}
use lattik_studio.Expression.Lexer.Scan.{Token, LexMessage}
use lattik_studio.Expression.Nodes.{ExprBase}

-- The messages of the parser, a constructor for each template, and those of the lexer.
pub data ParseMessage : Type 0 where
  lexical : LexMessage → ParseMessage
  expected_token : TokenKind → Text → ParseMessage
  expected_type : Text → ParseMessage
  unexpected_token : Text → ParseMessage
  nesting_too_deep too_many_whens no_when_clause list_too_long : ParseMessage

pub record ParseError : Type 0 where
  pub line : ℕ
  pub col : ℕ
  pub message : ParseMessage

-- `tokens` and `pos` as the token before the position and the tokens from it on.
pub record ParserState : Type 0 where
  pub previous : Option Token
  pub rest : List Token
  pub errors : List ParseError
  pub depth : ℕ

-- A part of the parser: a value and the next state; `none` is fuel run out.
abbrev pub Parser {ℓ} : Type ℓ → Type ℓ
Parser A = ParserState → Option (A × ParserState)

module _ {ℓ κ} {A : Type ℓ} {B : Type κ} where
  infixl 5 ◌>>=◌ ◌>>◌
  abbrev pub ◌>>=◌ : Parser A → (A → Parser B) → Parser B
  ◌>>=◌ p q s = elim (p s) [ none ↦ none | some (a, t) ↦ q a t ]

  abbrev pub ◌>>◌ : Parser A → Parser B → Parser B
  ◌>>◌ p q s = elim (p s) [ none ↦ none | some (a, t) ↦ q t ]

abbrev pub pure {ℓ} : {A : Type ℓ} → A → Parser A
pure a s = some (a, s)

abbrev pub out_of_fuel {ℓ} : {A : Type ℓ} → Parser A
out_of_fuel s = none

-- The token that stands behind the end of the array; a closed list of tokens never shows it.
abbrev pub missing : Token
missing = record { kind = eof; text = []; line = 1; col = 1 }

abbrev pub head_token : List Token → Token
head_token [] = missing
head_token (t ∷ ts) = t

abbrev pub current : ParserState → Token
current s = head_token s.rest

abbrev pub is_at_end : ParserState → Bool
is_at_end s = kind_eq (current s).kind eof

abbrev pub step_over : List Token → ParserState → ParserState
step_over [] s = s
step_over (t ∷ ts) s = record s { previous = some t; rest = ts }

-- `advance`: the current token, which is passed unless it is the end.
unfoldable pub advance : Parser Token
advance s = some (current s, if is_at_end s then s else step_over s.rest s)

abbrev pub add_error : ParseMessage → ParserState → ParserState
add_error m s = record s {
  errors =
      s.errors ++ (record { line = (current s).line; col = (current s).col; message = m }) ∷ [];
}

unfoldable pub error : ParseMessage → Parser (Unit {0})
error m s = some (tt, add_error m s)

abbrev pub check : List TokenKind → ParserState → Bool
check kinds s = mem_kind (current s).kind kinds

unfoldable pub expect : TokenKind → Parser Token
unfolding advance
expect kind s =
    if kind_eq (current s).kind kind
    then advance s
    else some (current s, add_error (expected_token kind (current s).text) s)

-- `match(...kinds)` and the two branches that its callers take on its result.
unfoldable pub if_match {ℓ} :
    {A : Type ℓ} → List TokenKind → (Token → Parser A) → Parser A → Parser A
unfolding advance
if_match kinds found other s = if check kinds s then (advance >>= found) s else other s

-- The two branches on `check(...kinds)`.
unfoldable pub if_check {ℓ} : {A : Type ℓ} → List TokenKind → Parser A → Parser A → Parser A
if_check kinds found other s = if check kinds s then found s else other s

-- `!!this.match(...kinds)`.
abbrev pub matched : List TokenKind → Parser Bool
matched kinds = if_match kinds (λ _. pure true) (pure false)

-- `lookAhead(1)`.
abbrev pub look_ahead : List Token → TokenKind
look_ahead [] = eof
look_ahead (t ∷ []) = eof
look_ahead (t ∷ u ∷ ts) = u.kind

abbrev or_token : Option Token → Token → Token
or_token none t = t
or_token (some p) t = p

-- `loc(start)`: up to the token before the position.
abbrev pub loc_from : Token → ParserState → ExprBase
loc_from start s =
    let e = or_token s.previous start in
    record {
      loc = some (record {
        start_line = start.line;
        start_col = start.col;
        stop_line = e.line;
        stop_col = e.col + length e.text;
      });
      data_type = none;
    }

-- The base fields of a node that is finished here.
unfoldable pub located : Token → Parser ExprBase
located start s = some (loc_from start s, s)

unfoldable pub here : Parser Token
here s = some (current s, s)
