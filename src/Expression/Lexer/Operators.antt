-- ===== src/Expression/Lexer/Operators.antt =====
-- The shape of one round of the scanner, and the rounds on operators and delimiters
-- (packages/lattik-expression/src/parser/lexer.ts, the switch of `tokenize`).
use lattik_studio.Prelude.{
  ℕ, ◌+◌, ◌<◌, Bool, true, false, List, [], ◌∷◌, ◌++◌, Text, ◌≡◌, ◌≢◌, refl, ap, ◌⊎◌, inl, inr,
  arith, length, if◌then◌else◌, ◌==◌,
}
use lattik_studio.Expression.Lexer.Kinds.{
  TokenKind, eof, kind_eq, plus, minus, star, slash, percent, pipe_pipe, eq, neq, ltgt, lt, lte, gt,
  gte, lparen, rparen, comma, dot,
}
use lattik_studio.Expression.Lexer.Scan.{
  Token, Lex, LexMessage, next_line, next_col, cursor, emit, report_if, move, scan_operator, one,
  two, unexpected, peek, drop_one,
}
use lattik_studio.Expression.Lexer.Positions.{
  Reaches, Reaches-here, Reaches-step, Reaches-plain, Reaches-two, plain_of,
}

-- A round that starts at a position on the text `t` passes a code unit at least, and pushes no
-- token, or one token that starts at that position and is not the end of the input.
pub record Round (t : Text) (l k : ℕ) (st st' : Lex) : Type 0 where
  pub moved : Reaches t l k st'.at
  pub shorter : length st'.at.rest < length t
  pub pushed :
      (st'.tokens ≡ st.tokens)
      ⊎ ((tok : Token) × (st'.tokens ≡ st.tokens ++ tok ∷ [])
          × (tok.line ≡ l)
          × (tok.col ≡ k)
          × (kind_eq tok.kind eof ≡ false))

pub report_if-at :
    (b : Bool) (m : LexMessage) (l k : ℕ) (st : Lex) → (report_if b m l k st).at ≡ st.at
report_if-at true m l k st = refl
report_if-at false m l k st = refl

pub report_if-tokens :
    (b : Bool) (m : LexMessage) (l k : ℕ) (st : Lex) → (report_if b m l k st).tokens ≡ st.tokens
report_if-tokens true m l k st = refl
report_if-tokens false m l k st = refl

pub Round-if :
    {t : Text} {l k : ℕ} {st a b : Lex} (c : Bool)
    → (c ≡ true → Round t l k st a)
    → (c ≡ false → Round t l k st b)
    → Round t l k st (if c then a else b)
Round-if true f g = f refl
Round-if false f g = g refl

-- A round that passes code units and pushes a token.
pub Round-token :
    {t : Text} {l k : ℕ} {st : Lex} (kind : TokenKind) (text : Text) (st' : Lex)
    → kind_eq kind eof ≡ false
    → Reaches t l k st'.at
    → length st'.at.rest < length t
    → st'.tokens ≡ st.tokens
    → Round t l k st (emit kind text l k st')
Round-token {t} {l} {k} kind text st' e r h same = record {
  moved = r;
  shorter = h;
  pushed = inr (
    record { kind = kind; text = text; line = l; col = k },
    ap (λ (ts : List Token). ts ++ (record { kind = kind; text = text; line = l; col = k }) ∷ [])
        same,
    refl,
    refl,
    e,
  );
}

pub Round-one :
    (kind : TokenKind) (c : ℕ) (cs : Text) (l k : ℕ) (st : Lex)
    → kind_eq kind eof ≡ false
    → (c == 10) ≡ false
    → Round (c ∷ cs) l k st (one kind c cs l k st)
Round-one kind c cs l k st e h =
    Round-token kind (c ∷ []) (move (cursor cs l (k + 1)) st) e
      (Reaches-plain c cs l k _ h (Reaches-here cs l (k + 1))) (omega arith) refl

pub Round-two :
    (kind : TokenKind) (c d : ℕ) (cs : Text) (l k : ℕ) (st : Lex)
    → kind_eq kind eof ≡ false
    → (c == 10) ≡ false
    → d ≢ 0
    → d ≢ 10
    → (peek cs == d) ≡ true
    → Round (c ∷ cs) l k st (two kind c d (drop_one cs) l k st)
Round-two kind c d [] l k st e h n p q = absurd (ground arith)
Round-two kind c d (x ∷ cs) l k st e h n p q =
    Round-token kind (c ∷ d ∷ []) (move (cursor cs l (k + 2)) st) e
      (Reaches-two c x cs l k _ h (ground arith) (Reaches-here cs l (k + 2))) (omega arith) refl

pub Round-unexpected :
    (c : ℕ) (cs : Text) (l k : ℕ) (st : Lex) → Round (c ∷ cs) l k st (unexpected c cs l k st)
Round-unexpected c cs l k st = record {
  moved = Reaches-step c cs l k _ (Reaches-here cs (next_line c l) (next_col c k));
  shorter = omega arith;
  pushed = inl refl;
}

pub scan_operator-Round :
    (c : ℕ) (cs : Text) (l k : ℕ) (st : Lex) → Round (c ∷ cs) l k st (scan_operator c cs l k st)
unfolding scan_operator kind_eq
scan_operator-Round c cs l k st =
    Round-if (c == b'+') (λ h. Round-one plus c cs l k st refl (plain_of c b'+' h (omega arith)))
      λ _.
        Round-if (c == b'-')
          (λ h. Round-one minus c cs l k st refl (plain_of c b'-' h (omega arith)))
          λ _.
            Round-if (c == b'*')
              (λ h. Round-one star c cs l k st refl (plain_of c b'*' h (omega arith)))
              λ _.
                Round-if (c == b'/')
                  (λ h. Round-one slash c cs l k st refl (plain_of c b'/' h (omega arith)))
                  λ _.
                    Round-if (c == b'%')
                      (λ h. Round-one percent c cs l k st refl (plain_of c b'%' h (omega arith)))
                      λ _.
                        Round-if (c == b'(')
                          (λ h. Round-one lparen c cs l k st refl (plain_of c b'(' h (omega arith)))
                          λ _.
                            Round-if (c == b')')
                              (λ h.
                                Round-one rparen c cs l k st refl (plain_of c b')' h (omega arith)))
                              λ _.
                                Round-if (c == b',')
                                  (λ h.
                                    Round-one comma c cs l k st refl
                                      (plain_of c b',' h (omega arith)))
                                  λ _.
                                    Round-if (c == b'.')
                                      (λ h.
                                        Round-one dot c cs l k st refl
                                          (plain_of c b'.' h (omega arith)))
                                      λ _.
                                        Round-if (c == b'=')
                                          (λ h.
                                            Round-one eq c cs l k st refl
                                              (plain_of c b'=' h (omega arith)))
                                          λ _.
                                            Round-if (c == b'<')
                                              (λ h.
                                                Round-if (peek cs == b'=')
                                                  (λ q.
                                                    Round-two lte c b'=' cs l k st refl
                                                      (plain_of c b'<' h (omega arith))
                                                      (omega arith) (omega arith) q)
                                                  λ _.
                                                    Round-if (peek cs == b'>')
                                                      (λ q.
                                                        Round-two ltgt c b'>' cs l k st refl
                                                          (plain_of c b'<' h (omega arith))
                                                          (omega arith) (omega arith) q)
                                                      (λ _.
                                                        Round-one lt c cs l k st refl
                                                          (plain_of c b'<' h (omega arith))))
                                              λ _.
                                                Round-if (c == b'>')
                                                  (λ h.
                                                    Round-if (peek cs == b'=')
                                                      (λ q.
                                                        Round-two gte c b'=' cs l k st refl
                                                          (plain_of c b'>' h (omega arith))
                                                          (omega arith) (omega arith) q)
                                                      (λ _.
                                                        Round-one gt c cs l k st refl
                                                          (plain_of c b'>' h (omega arith))))
                                                  λ _.
                                                    Round-if (c == b'!')
                                                      (λ h.
                                                        Round-if (peek cs == b'=')
                                                          (λ q.
                                                            Round-two neq c b'=' cs l k st refl
                                                            (plain_of c b'!' h (omega arith))
                                                            (omega arith) (omega arith) q)
                                                          (λ _. Round-unexpected c cs l k st))
                                                      λ _.
                                                        Round-if (c == b'|')
                                                          (λ h.
                                                            Round-if (peek cs == b'|')
                                                            (λ q.
                                                            Round-two pipe_pipe c b'|' cs l k st
                                                            refl (plain_of c b'|' h (omega arith))
                                                            (omega arith) (omega arith) q)
                                                            (λ _. Round-unexpected c cs l k st))
                                                          (λ _. Round-unexpected c cs l k st)
