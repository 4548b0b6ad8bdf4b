-- ===== src/Expression/Lexer/Rounds.antt =====
-- What one round of the scanner's loop does to its state
-- (packages/lattik-expression/src/parser/lexer.ts, the body of `while` in `tokenize`).
use lattik_studio.Prelude.{
  ℕ, ◌+◌, ◌<◌, true, false, Option, none, some, List, [], ◌∷◌, ◌++◌, Text, ◌≡◌, refl, sym, ◌∙◌, inl,
  inr, arith, length, Bool-cases, Option-cases, ◌==◌, ◌&&◌, ==_iff, text_eq, subst, ltb, to_upper,
  not,
}
use lattik_studio.Expression.Lexer.Kinds.{
  TokenKind, eof, kind_eq, keywords, type_keywords, lookup_kind, ident, as_kw, integer, decimal,
  string_token,
}
use lattik_studio.Expression.Lexer.Scan.{
  Cursor, Lex, Quoted, LexMessage, next_line, next_col, emit, report_if, move, span, fraction,
  scan_number, string_body, scan_string, word_kind, scan_word, quoted_body, scan_quoted, scan_one,
  is_digit, is_space, is_ident_start, is_alpha, not_newline, finish_number, peek,
  max_literal_length, number_too_long, string_too_long, ident_too_long, unterminated_string,
  unterminated_ident,
}
use lattik_studio.Expression.Lexer.Positions.{
  Reaches, Reaches-here, Reaches-step, Reaches-trans, Reaches-le, Reaches-plain, span-Reaches,
  span-lt, string_body-Reaches, quoted_body-Reaches, fraction-Reaches,
}
use lattik_studio.Expression.Lexer.Operators.{
  Round, report_if-at, report_if-tokens, Round-if, Round-token, scan_operator-Round,
}

finish_number-Round :
    (kind : TokenKind) (num : Text) (q : Cursor) (t : Text) (l k : ℕ) (st : Lex)
    → kind_eq kind eof ≡ false
    → Reaches t l k q
    → length q.rest < length t
    → Round t l k st (finish_number kind num q l k st)
finish_number-Round kind num q t l k st e r h =
    let long = ltb max_literal_length (length num) in
    let m = number_too_long (length num) in
    Round-token kind num (report_if long m l k (move q st)) e (rw report_if-at r)
      (rw report_if-at h) (report_if-tokens long m l k (move q st))

scan_number-Round :
    (c : ℕ) (cs : Text) (l k : ℕ) (st : Lex)
    → is_digit c ≡ true
    → Round (c ∷ cs) l k st (scan_number (c ∷ cs) l k st)
unfolding scan_number kind_eq
scan_number-Round c cs l k st d =
    let q = (span is_digit (c ∷ cs) l k).1 in
    let r = span-Reaches is_digit (c ∷ cs) l k in
    let short = span-lt is_digit c cs l k d in
    elim (Option-cases (fraction q.rest q.line q.col)) [
      | inl e ↦
          rw (e, scan_number)
            (finish_number-Round integer (span is_digit (c ∷ cs) l k).0 q (c ∷ cs) l k st refl r
              short)
      | inr (f, e) ↦
          let r' = fraction-Reaches q.rest q.line q.col f e in
          rw (e, scan_number)
            (finish_number-Round decimal ((span is_digit (c ∷ cs) l k).0 ++ f.0) f.1 (c ∷ cs) l k st
              refl (Reaches-trans r r') (omega (arith, Reaches-le r')))
    ]

-- The literals behind an opening quote of either sort.
quoted-Round :
    (kind : TokenKind) (c : ℕ) (cs : Text) (l k : ℕ) (st : Lex) (q : Quoted) (m n : LexMessage)
    → kind_eq kind eof ≡ false
    → (c == 10) ≡ false
    → Reaches cs l (k + 1) q.at
    → Round (c ∷ cs) l k st (
        emit kind q.value l k
          (report_if q.truncated m l k (report_if (not q.terminated) n l k (move q.at st))))
quoted-Round kind c cs l k st q m n e h r =
    Round-token kind q.value
      (report_if q.truncated m l k (report_if (not q.terminated) n l k (move q.at st))) e
      (rw (report_if-at, report_if-at) (Reaches-plain c cs l k q.at h r))
      (rw (report_if-at, report_if-at) (omega (arith, Reaches-le r)))
      (report_if-tokens q.truncated m l k (report_if (not q.terminated) n l k (move q.at st))
        ∙ report_if-tokens (not q.terminated) n l k (move q.at st))

-- No entry of a table is the end of the input.
abbrev NoEof : List (Text × TokenKind) → Type 0
NoEof [] = Unit {0}
NoEof ((t, kind) ∷ m) = (kind_eq kind eof ≡ false) × NoEof m

lookup_kind-ne-eof :
    (t : Text) (m : List (Text × TokenKind)) (kind : TokenKind)
    → NoEof m
    → lookup_kind t m ≡ some kind
    → kind_eq kind eof ≡ false
unfolding lookup_kind
lookup_kind-ne-eof t [] kind h e = cc
lookup_kind-ne-eof t ((j, v) ∷ m) kind h e = elim (Bool-cases (text_eq t j)) [
  | inl p ↦ ground (arith, h.0)
  | inr p ↦ lookup_kind-ne-eof t m kind h.1 (rw p at e)
]

keywords-NoEof : NoEof keywords
unfolding keywords kind_eq
keywords-NoEof = ground arith

type_keywords-NoEof : NoEof type_keywords
unfolding type_keywords kind_eq
type_keywords-NoEof = ground arith

scan_string-Round :
    (cs : Text) (l k : ℕ) (st : Lex) → Round (39 ∷ cs) l k st (scan_string cs l k st)
unfolding scan_string kind_eq
scan_string-Round cs l k st =
    quoted-Round string_token 39 cs l k st (string_body cs l (k + 1) [] false) string_too_long
      unterminated_string refl refl (string_body-Reaches cs l (k + 1) [] false)

scan_quoted-Round :
    (cs : Text) (l k : ℕ) (st : Lex) → Round (34 ∷ cs) l k st (scan_quoted cs l k st)
unfolding scan_quoted kind_eq
scan_quoted-Round cs l k st =
    quoted-Round ident 34 cs l k st (quoted_body cs l (k + 1) [] false) ident_too_long
      unterminated_ident refl refl (quoted_body-Reaches cs l (k + 1) [] false)

-- The kind that an optional entry of a table gives, or that of a plain name.
abbrev kind_or : Option TokenKind → TokenKind → TokenKind
kind_or o d = elim o [ some k ↦ k | none ↦ d ]

kind_or-ne-eof :
    (t : Text) (m : List (Text × TokenKind)) (d : TokenKind)
    → NoEof m
    → kind_eq d eof ≡ false
    → kind_eq (kind_or (lookup_kind t m) d) eof ≡ false
kind_or-ne-eof t m d h e = elim (Option-cases (lookup_kind t m)) [
  | inl p ↦ rw p e
  | inr (k, p) ↦ rw p (lookup_kind-ne-eof t m k h p)
]

pub word_kind-ne-eof :
    (last : Option TokenKind) (word : Text) → kind_eq (word_kind last word) eof ≡ false
unfolding word_kind
word_kind-ne-eof none word =
    kind_or-ne-eof (to_upper word) keywords ident keywords-NoEof (unfold kind_eq in refl)
word_kind-ne-eof (some k) word =
    let plain =
      kind_or-ne-eof (to_upper word) keywords ident keywords-NoEof (unfold kind_eq in refl) in
    elim (Bool-cases (kind_eq k as_kw)) [
      | inl e ↦ rw e (kind_or-ne-eof (to_upper word) type_keywords _ type_keywords-NoEof plain)
      | inr e ↦ rw e plain
    ]

scan_word-Round :
    (c : ℕ) (cs : Text) (l k : ℕ) (st : Lex)
    → is_alpha c ≡ true
    → Round (c ∷ cs) l k st (scan_word (c ∷ cs) l k st)
unfolding scan_word
scan_word-Round c cs l k st h =
    let out = span is_alpha (c ∷ cs) l k in
    Round-token (word_kind st.last_kind out.0) out.0 (move out.1 st)
      (word_kind-ne-eof st.last_kind out.0) (span-Reaches is_alpha (c ∷ cs) l k)
      (span-lt is_alpha c cs l k h) refl

-- One round of the loop.
pub scan_one-Round :
    (c : ℕ) (cs : Text) (st : Lex) → Round (c ∷ cs) st.at.line st.at.col st (scan_one c cs st)
unfolding scan_one
scan_one-Round c cs st =
    let l = st.at.line in
    let k = st.at.col in
    Round-if (is_space c)
      (λ _. record {
        moved = Reaches-step c cs l k _ (Reaches-here cs (next_line c l) (next_col c k));
        shorter = omega arith;
        pushed = inl refl;
      })
      λ _.
        Round-if (c == b'-' && peek cs == b'-')
          (λ h. record {
            moved = span-Reaches not_newline (c ∷ cs) l k;
            shorter = span-lt not_newline c cs l k (ground arith);
            pushed = inl refl;
          })
          λ _. Round-if (is_digit c) (scan_number-Round c cs l k st) λ _.
            Round-if (c == 39)
              (λ h.
                subst (λ (n : ℕ). Round (n ∷ cs) l k st (scan_string cs l k st))
                  (sym ((==_iff c 39).0 h)) (scan_string-Round cs l k st))
              λ _.
                Round-if (is_ident_start c) (λ h. scan_word-Round c cs l k st (ground arith))
                  λ _.
                    Round-if (c == 34)
                      (λ h.
                        subst (λ (n : ℕ). Round (n ∷ cs) l k st (scan_quoted cs l k st))
                          (sym ((==_iff c 34).0 h)) (scan_quoted-Round cs l k st))
                      λ _. scan_operator-Round c cs l k st
