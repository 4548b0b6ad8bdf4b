-- ===== src/Expression/Lexer/Total.antt =====
-- The scanner's loop ends, and what its tokens are
-- (packages/lattik-expression/src/parser/lexer.ts, `tokenize`).
use lattik_studio.Prelude.{
  ℕ, zero, suc, ◌≤◌, true, false, Option, none, some, List, [], ◌∷◌, ◌++◌, Text, ◌≡◌, refl, sym, ap,
  ◌∙◌, inl, inr, arith, length, Bool-cases, List-cases, All, All-append, ltb, subst,
}
use lattik_studio.Expression.Lexer.Kinds.{eof, kind_eq}
use lattik_studio.Expression.Lexer.Scan.{
  Token, Lex, LexResult, scan_one, scan, lex_start, close_tokens, tokenize, max_input_length,
  input_too_large,
}
use lattik_studio.Expression.Lexer.Positions.{
  line_after, col_after, Reaches, Reaches-here, Reaches-trans,
}
use lattik_studio.Expression.Lexer.Rounds.{scan_one-Round}

-- The end of the input is the last token, and no token before it.
pub data Closed : List Token → Type 0 where
  last : (t : Token) → kind_eq t.kind eof ≡ true → Closed (t ∷ [])
  more : (t : Token) {ts : List Token} → kind_eq t.kind eof ≡ false → Closed ts → Closed (t ∷ ts)

-- The token stands at a place of the input, and its line and column count what is before it.
pub record StandsIn (input : Text) (t : Token) : Type 0 where
  pub before : Text
  pub behind : Text
  pub splits : input ≡ before ++ behind
  pub line_counted : t.line ≡ line_after before 1
  pub col_counted : t.col ≡ col_after before 1

-- A token that a round has pushed.
abbrev IsPushed : Text → Token → Type 0
IsPushed input t = (kind_eq t.kind eof ≡ false) × StandsIn input t

abbrev Scanned : Text → Lex → Type 0
Scanned input st = Reaches input 1 1 st.at × All (IsPushed input) st.tokens

scan_one-Scanned :
    (input : Text) (c : ℕ) (cs : Text) (st : Lex)
    → st.at.rest ≡ c ∷ cs
    → Scanned input st
    → Scanned input (scan_one c cs st)
scan_one-Scanned input c cs st e h =
    let r = scan_one-Round c cs st in
    (
      Reaches-trans h.0 (
          subst (λ (t : Text). Reaches t st.at.line st.at.col (scan_one c cs st).at) (sym e)
            r.moved),
      elim r.pushed [
        | inl same ↦ rw same h.1
        | inr (tok, p, at_line, at_col, not_eof) ↦ rw p (
            All-append (IsPushed input) st.tokens (tok ∷ []) h.1 (
              (
                not_eof,
                record {
                  before = h.0.passed;
                  behind = st.at.rest;
                  splits = h.0.splits;
                  line_counted = at_line ∙ h.0.line_counted;
                  col_counted = at_col ∙ h.0.col_counted;
                },
              ),
              tt,
            ))
      ],
    )

scan_done : (f : ℕ) (st : Lex) → st.at.rest ≡ [] → scan f st ≡ some st
unfolding scan
scan_done zero st e =
    ap (λ (t : Text). elim t as (λ _. Option Lex) [ [] ↦ some st | c ∷ cs ↦ none ]) e
scan_done (suc f) st e =
    ap
      (λ (t : Text). elim t as (λ _. Option Lex) [
        | [] ↦ some st
        | c ∷ cs ↦ scan f (scan_one c cs st)
      ])
      e

scan_more :
    (f : ℕ) (st : Lex) (c : ℕ) (cs : Text)
    → st.at.rest ≡ c ∷ cs
    → scan (suc f) st ≡ scan f (scan_one c cs st)
unfolding scan
scan_more f st c cs e =
    ap
      (λ (t : Text). elim t as (λ _. Option Lex) [
        | [] ↦ some st
        | d ∷ ds ↦ scan f (scan_one d ds st)
      ])
      e

-- The loop ends within its fuel, at the end of the input.
scan_total :
    (input : Text) (f : ℕ) (st : Lex)
    → length st.at.rest ≤ f
    → Scanned input st
    → (st' : Lex) × (scan f st ≡ some st') × Scanned input st' × (st'.at.rest ≡ [])
scan_total input zero st m h = elim (List-cases st.at.rest) [
  | inl e ↦ (st, scan_done zero st e, h, e)
  | inr (c, cs, e) ↦ absurd (omega (arith, ap length e))
]
scan_total input (suc f) st m h = elim (List-cases st.at.rest) [
  | inl e ↦ (st, scan_done (suc f) st e, h, e)
  | inr (c, cs, e) ↦
      let (st', p, s, z) =
        scan_total input f (scan_one c cs st)
          (omega (arith, (scan_one-Round c cs st).shorter, ap length e))
          (scan_one-Scanned input c cs st e h) in
      (st', scan_more f st c cs e ∙ p, s, z)
]

Closed-append :
    (input : Text) (ts : List Token) (t : Token)
    → All (IsPushed input) ts
    → kind_eq t.kind eof ≡ true
    → Closed (ts ++ t ∷ [])
Closed-append input [] t h e = last t e
Closed-append input (x ∷ ts) t h e = more x h.0.0 (Closed-append input ts t h.1 e)

All-StandsIn : (input : Text) (ts : List Token) → All (IsPushed input) ts → All (StandsIn input) ts
All-StandsIn input [] h = tt
All-StandsIn input (t ∷ ts) h = (h.0.1, All-StandsIn input ts h.1)

close_tokens_lem :
    (input : Text) (st : Lex)
    → Scanned input st
    → Closed (close_tokens st).tokens × All (StandsIn input) (close_tokens st).tokens
unfolding kind_eq
close_tokens_lem input st h = (
  Closed-append input st.tokens _ h.1 refl,
  All-append (StandsIn input) st.tokens (_ ∷ []) (All-StandsIn input st.tokens h.1) (
    record {
      before = h.0.passed;
      behind = st.at.rest;
      splits = h.0.splits;
      line_counted = h.0.line_counted;
      col_counted = h.0.col_counted;
    },
    tt,
  ),
)

start-Scanned : (input : Text) → Scanned input (lex_start input)
start-Scanned input = (Reaches-here input 1 1, tt)

-- The tokenizer returns a result for every input, whose last token is the end of the input and
-- no other is, and in which each token's line and column are those of a place of the input.
pub tokenize_total :
    (input : Text)
    → (r : LexResult) × (tokenize input ≡ some r) × Closed r.tokens × All (StandsIn input) r.tokens
unfolding tokenize kind_eq
tokenize_total input = elim (Bool-cases (ltb max_input_length (length input))) [
  | inl large ↦ (
    record {
      tokens = (record { kind = eof; text = []; line = 1; col = 1 }) ∷ [];
      errors = (record { line = 1; col = 1; message = input_too_large (length input) }) ∷ [];
    },
    rw large,
    last _ refl,
    (
      record {
        before = [];
        behind = input;
        splits = refl;
        line_counted = refl;
        col_counted = refl;
      },
      tt,
    ),
  )
  | inr small ↦
      let (st, p, s, z) =
        scan_total input (length input) (lex_start input) (omega arith) (start-Scanned input) in
      let (c, a) = close_tokens_lem input st s in (close_tokens st, rw (small, p), c, a)
]
