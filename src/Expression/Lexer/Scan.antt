-- ===== src/Expression/Lexer/Scan.antt =====
-- One token at a time: the scanner's state and the body of its loop
-- (packages/lattik-expression/src/parser/lexer.ts, `tokenize`).
use lattik_studio.Prelude.{
  ℕ, zero, suc, ◌+◌, Bool, true, false, Option, none, some, List, [], ◌∷◌, ◌++◌, Text, to_upper,
  ltb, leb, ◌==◌, ◌&&◌, ◌||◌, not, if◌then◌else◌, length,
}
use lattik_studio.Expression.Lexer.Kinds.{
  TokenKind, integer, decimal, string_token, ident, as_kw, plus, minus, star, slash, percent,
  pipe_pipe, eq, neq, ltgt, lt, lte, gt, gte, lparen, rparen, comma, dot, eof, kind_eq, keywords,
  type_keywords, lookup_kind,
}

pub record Token : Type 0 where
  pub kind : TokenKind
  pub text : Text
  pub line : ℕ
  pub col : ℕ

-- The messages of the lexer, a constructor for each template.
pub data LexMessage : Type 0 where
  input_too_large : ℕ → LexMessage
  number_too_long : ℕ → LexMessage
  unterminated_string string_too_long unterminated_ident ident_too_long : LexMessage
  unexpected_character : ℕ → LexMessage

pub record LexError : Type 0 where
  pub line : ℕ
  pub col : ℕ
  pub message : LexMessage

pub record LexResult : Type 0 where
  pub tokens : List Token
  pub errors : List LexError

abbrev pub max_input_length : ℕ
max_input_length = 1_048_576

abbrev pub max_literal_length : ℕ
max_literal_length = 100

abbrev pub max_string_length : ℕ
max_string_length = 65_536

-- Where the scanner stands: `input.slice(pos)`, and the position of its first code unit.
pub record Cursor : Type 0 where
  pub rest : Text
  pub line : ℕ
  pub col : ℕ

-- What `advance` does to `line` and `col` when it passes a code unit.
abbrev pub next_line : ℕ → ℕ → ℕ
next_line c l = if c == 10 then l + 1 else l

abbrev pub next_col : ℕ → ℕ → ℕ
next_col c k = if c == 10 then 1 else k + 1

abbrev pub cursor : Text → ℕ → ℕ → Cursor
cursor t l k = record { rest = t; line = l; col = k }

-- The local variables of `tokenize`.
pub record Lex : Type 0 where
  pub at : Cursor
  pub tokens : List Token
  pub errors : List LexError
  pub last_kind : Option TokenKind

abbrev pub is_space : ℕ → Bool
is_space c = c == 32 || c == 9 || c == 10 || c == 13

abbrev pub is_digit : ℕ → Bool
is_digit c = leb 48 c && leb c 57

abbrev pub is_ident_start : ℕ → Bool
is_ident_start c = (leb 97 c && leb c 122) || (leb 65 c && leb c 90) || c == 95

abbrev pub is_alpha : ℕ → Bool
is_alpha c = (leb 97 c && leb c 122) || (leb 65 c && leb c 90) || (leb 48 c && leb c 57) || c == 95

-- Advance while the test holds; the code units passed, and the cursor behind them.
unfoldable pub span : (ℕ → Bool) → Text → ℕ → ℕ → Text × Cursor
span p [] l k = ([], cursor [] l k)
span p (c ∷ cs) l k =
    let (t, q) = span p cs (next_line c l) (next_col c k) in
    if p c then (c ∷ t, q) else ([], cursor (c ∷ cs) l k)

abbrev pub emit : TokenKind → Text → ℕ → ℕ → Lex → Lex
emit kind text l k st = record st {
  tokens = st.tokens ++ (record { kind = kind; text = text; line = l; col = k }) ∷ [];
  last_kind = some kind;
}

abbrev pub report : LexMessage → ℕ → ℕ → Lex → Lex
report m l k st = record st {
  errors = st.errors ++ (record { line = l; col = k; message = m }) ∷ [];
}

abbrev pub report_if : Bool → LexMessage → ℕ → ℕ → Lex → Lex
report_if b m l k st = if b then report m l k st else st

abbrev pub move : Cursor → Lex → Lex
move q st = record st { at = q }

-- A single-line comment: everything up to the line's end, which stays.
abbrev pub not_newline : ℕ → Bool
not_newline c = not (c == 10)

-- The fraction of a number, when a point and a digit follow its integral digits.
unfoldable pub fraction : Text → ℕ → ℕ → Option (Text × Cursor)
unfolding span
fraction [] l k = none
fraction (p ∷ []) l k = none
fraction (p ∷ d ∷ cs) l k =
    let (t, q) = span is_digit (d ∷ cs) l (k + 1) in
    if p == b'.' && is_digit d then some (p ∷ t, q) else none

abbrev pub finish_number : TokenKind → Text → Cursor → ℕ → ℕ → Lex → Lex
finish_number kind num q l k st =
    emit kind num l k (
      report_if (ltb max_literal_length (length num)) (number_too_long (length num)) l k
        (move q st))

unfoldable pub scan_number : Text → ℕ → ℕ → Lex → Lex
unfolding span fraction
scan_number t l k st =
    let (digits, q) = span is_digit t l k in
    elim (fraction q.rest q.line q.col) [
      | some f ↦ finish_number decimal (digits ++ f.0) f.1 l k st
      | none ↦ finish_number integer digits q l k st
    ]

-- The variables of the loop over a string literal when it ends.
pub record Quoted : Type 0 where
  pub value : Text
  pub terminated : Bool
  pub truncated : Bool
  pub at : Cursor

-- `str += advance()` while the text is short enough; else the code unit is dropped.
abbrev pub push_unit : Text → ℕ → Text
push_unit s c = if ltb (length s) max_string_length then s ++ c ∷ [] else s

-- The loop behind an opening quote: two quotes stand for one, one quote ends the literal.
unfoldable pub string_body : Text → ℕ → ℕ → Text → Bool → Quoted
string_body [] l k s cut = record {
  value = s;
  terminated = false;
  truncated = cut;
  at = cursor [] l k;
}
string_body (c ∷ []) l k s cut = elim (c == 39) [
  | true ↦ record { value = s; terminated = true; truncated = cut; at = cursor [] l (k + 1) }
  | false ↦ record {
    value = push_unit s c;
    terminated = false;
    truncated = cut || leb max_string_length (length s);
    at = cursor [] (next_line c l) (next_col c k);
  }
]
string_body (c ∷ d ∷ cs) l k s cut = elim (c == 39) [
  | true ↦ elim (d == 39) [
    | true ↦ string_body cs l (k + 2) (s ++ 39 ∷ []) cut
    | false ↦ record {
      value = s;
      terminated = true;
      truncated = cut;
      at = cursor (d ∷ cs) l (k + 1);
    }
  ]
  | false ↦
      string_body (d ∷ cs) (next_line c l) (next_col c k) (push_unit s c)
        (cut || leb max_string_length (length s))
]

unfoldable pub scan_string : Text → ℕ → ℕ → Lex → Lex
unfolding string_body
scan_string cs l k st =
    let q = string_body cs l (k + 1) [] false in
    emit string_token q.value l k (
      report_if q.truncated string_too_long l k
        (report_if (not q.terminated) unterminated_string l k (move q.at st)))

-- The kind of an identifier: a type name directly behind AS, a keyword, or a plain name.
unfoldable pub word_kind : Option TokenKind → Text → TokenKind
unfolding keywords type_keywords lookup_kind kind_eq to_upper
word_kind last word =
    let upper = to_upper word in
    let plain : TokenKind = elim (lookup_kind upper keywords) [ some k ↦ k | none ↦ ident ] in
    elim last [
      | some k ↦
          if kind_eq k as_kw
          then (elim (lookup_kind upper type_keywords) [ some j ↦ j | none ↦ plain ])
          else plain
      | none ↦ plain
    ]

unfoldable pub scan_word : Text → ℕ → ℕ → Lex → Lex
unfolding span word_kind
scan_word t l k st =
    let (word, q) = span is_alpha t l k in emit (word_kind st.last_kind word) word l k (move q st)

-- The loop behind an opening double quote.
unfoldable pub quoted_body : Text → ℕ → ℕ → Text → Bool → Quoted
quoted_body [] l k s cut = record {
  value = s;
  terminated = false;
  truncated = cut;
  at = cursor [] l k;
}
quoted_body (c ∷ cs) l k s cut = elim (c == 34) [
  | true ↦ record { value = s; terminated = true; truncated = cut; at = cursor cs l (k + 1) }
  | false ↦
      quoted_body cs (next_line c l) (next_col c k) (push_unit s c)
        (cut || leb max_string_length (length s))
]

unfoldable pub scan_quoted : Text → ℕ → ℕ → Lex → Lex
unfolding quoted_body
scan_quoted cs l k st =
    let q = quoted_body cs l (k + 1) [] false in
    emit ident q.value l k (
      report_if q.truncated ident_too_long l k
        (report_if (not q.terminated) unterminated_ident l k (move q.at st)))

-- A token of one code unit.
abbrev pub one : TokenKind → ℕ → Text → ℕ → ℕ → Lex → Lex
one kind c cs l k st = emit kind (c ∷ []) l k (move (cursor cs l (k + 1)) st)

-- A token of two code units.
abbrev pub two : TokenKind → ℕ → ℕ → Text → ℕ → ℕ → Lex → Lex
two kind c d cs l k st = emit kind (c ∷ d ∷ []) l k (move (cursor cs l (k + 2)) st)

-- `default:` of the switch, and the cases of `!` and `|` with no second code unit.
abbrev pub unexpected : ℕ → Text → ℕ → ℕ → Lex → Lex
unexpected c cs l k st =
    report (unexpected_character c) l k (move (cursor cs (next_line c l) (next_col c k)) st)

-- The code unit behind the first, or NUL at the end of the input (`peek`).
abbrev pub peek : Text → ℕ
peek [] = 0
peek (c ∷ cs) = c

abbrev pub drop_one : Text → Text
drop_one [] = []
drop_one (c ∷ cs) = cs

-- The switch over operators and delimiters; `cs` is what follows the code unit `c`.
unfoldable pub scan_operator : ℕ → Text → ℕ → ℕ → Lex → Lex
scan_operator c cs l k st =
    if c == b'+'
    then one plus c cs l k st
    else if c == b'-'
    then one minus c cs l k st
    else if c == b'*'
    then one star c cs l k st
    else if c == b'/'
    then one slash c cs l k st
    else if c == b'%'
    then one percent c cs l k st
    else if c == b'('
    then one lparen c cs l k st
    else if c == b')'
    then one rparen c cs l k st
    else if c == b','
    then one comma c cs l k st
    else if c == b'.'
    then one dot c cs l k st
    else if c == b'='
    then one eq c cs l k st
    else if c == b'<'
    then (if peek cs == b'='
        then two lte c b'=' (drop_one cs) l k st
        else if peek cs == b'>'
        then two ltgt c b'>' (drop_one cs) l k st
        else one lt c cs l k st)
    else if c == b'>'
    then (if peek cs == b'=' then two gte c b'=' (drop_one cs) l k st else one gt c cs l k st)
    else if c == b'!'
    then (if peek cs == b'=' then two neq c b'=' (drop_one cs) l k st else unexpected c cs l k st)
    else if c == b'|'
    then (if peek cs == b'|'
        then two pipe_pipe c b'|' (drop_one cs) l k st
        else unexpected c cs l k st)
    else unexpected c cs l k st

-- One round of the loop; `c` is the current code unit, and `cs` what follows it.
unfoldable pub scan_one : ℕ → Text → Lex → Lex
unfolding span scan_number scan_string scan_word scan_quoted scan_operator
scan_one c cs st =
    let l = st.at.line in
    let k = st.at.col in
    if is_space c
    then move (cursor cs (next_line c l) (next_col c k)) st
    else if c == b'-' && peek cs == b'-'
    then move (span not_newline (c ∷ cs) l k).1 st
    else if is_digit c
    then scan_number (c ∷ cs) l k st
    else if c == 39
    then scan_string cs l k st
    else if is_ident_start c
    then scan_word (c ∷ cs) l k st
    else if c == 34
    then scan_quoted cs l k st
    else scan_operator c cs l k st

-- `while (pos < input.length)`, a unit of fuel for each round; `none` is fuel run out.
unfoldable pub scan : ℕ → Lex → Option Lex
unfolding scan_one
scan zero st = elim st.at.rest [ [] ↦ some st | c ∷ cs ↦ none ]
scan (suc f) st = elim st.at.rest [ [] ↦ some st | c ∷ cs ↦ scan f (scan_one c cs st) ]

abbrev pub lex_start : Text → Lex
lex_start input = record { at = cursor input 1 1; tokens = []; errors = []; last_kind = none }

abbrev pub close_tokens : Lex → LexResult
close_tokens st = record {
  tokens = st.tokens ++ (record { kind = eof; text = []; line = st.at.line; col = st.at.col }) ∷ [];
  errors = st.errors;
}

-- `tokenize`; each round passes a code unit, so a unit of fuel for each is enough.
unfoldable pub tokenize : Text → Option LexResult
unfolding scan
tokenize input =
    if ltb max_input_length (length input)
    then some (record {
      tokens = (record { kind = eof; text = []; line = 1; col = 1 }) ∷ [];
      errors = (record { line = 1; col = 1; message = input_too_large (length input) }) ∷ [];
    })
    else (elim (scan (length input) (lex_start input)) [
      | some st ↦ some (close_tokens st)
      | none ↦ none
    ])
