-- ===== src/Expression/Emitter/Strings.antt =====
-- A string literal that is printed is read back (packages/lattik-expression/src/emitter/emit-sql.ts
-- and src/parser/lexer.ts).
use lattik_studio.Prelude.{
  ℕ, zero, suc, ◌+◌, ◌*◌, ◌≤◌, ◌<◌, ◌≡◌, inl, inr, refl, sym, ap, ◌∙◌, Bool, true, false, ◌||◌,
  some, [], ◌∷◌, ◌++◌, Text, ltb, leb, ◌==◌, length, length-append, append_assoc, append-nil,
  Bool-cases, subst, arith,
}
use lattik_studio.Expression.Nodes.{ExprBase, string_literal}
use lattik_studio.Expression.Emitter.{double_quotes, emit_sql}
use lattik_studio.Expression.Lexer.Kinds.{string_token, eof}
use lattik_studio.Expression.Lexer.Scan.{
  LexResult, Lex, Quoted, string_body, scan_string, scan_one, scan, tokenize, max_string_length,
  max_input_length, next_line, next_col, lex_start,
}

-- The text behind the opening quote.
abbrev body : Text → Text
body v = double_quotes 39 v ++ 39 ∷ []

-- The literal was read to the end of the input.
abbrev ReadAll : Text → Bool → Quoted → Type 0
ReadAll v cut q = (q.value ≡ v) × ((q.terminated ≡ true) × ((q.truncated ≡ cut) × (q.at.rest ≡ [])))

-- A code unit that is not a quote, and a text behind it.
plain_unit :
    (c : ℕ) (t : Text) (l k : ℕ) (s : Text) (cut : Bool)
    → (c == 39) ≡ false
    → length s < max_string_length
    → 0 < length t
    → string_body (c ∷ t) l k s cut ≡ string_body t (next_line c l) (next_col c k) (s ++ c ∷ []) cut
unfolding string_body
plain_unit c [] l k s cut h b n = absurd (omega arith)
plain_unit c (d ∷ t) l k s cut h b n = rw (h, string_body, fits, room, or_false cut) refl
  where
    fits : ltb (length s) max_string_length ≡ true
    fits = ground (arith, b)

    room : leb max_string_length (length s) ≡ false
    room = ground (arith, b)

    or_false : (x : Bool) → (x || false) ≡ x
    or_false x = ground arith

body-plain : (c : ℕ) (v : Text) → (c == 39) ≡ false → body (c ∷ v) ≡ c ∷ body v
unfolding double_quotes
body-plain c v e = rw (e, double_quotes) refl

length-body : (v : Text) → 0 < length (body v)
length-body v = omega (arith, length-append (double_quotes 39 v) (39 ∷ []))

-- The two quotes that stand for one count without a test of the length.
string_body_lem :
    (v : Text) (l k : ℕ) (s : Text) (cut : Bool)
    → length s + length v ≤ max_string_length
    → ReadAll (s ++ v) cut (string_body (body v) l k s cut)
unfolding string_body double_quotes
string_body_lem [] l k s cut h = (sym (append-nil s), (refl, (refl, refl)))
string_body_lem (c ∷ v) l k s cut h = elim (Bool-cases (c == 39)) [
  | inl e ↦
      subst (λ (d : ℕ). ReadAll (s ++ d ∷ v) cut (string_body (body (d ∷ v)) l k s cut))
        (sym (is_quote e))
        (subst (λ (w : Text). ReadAll w cut (string_body (body v) l (k + 2) (s ++ 39 ∷ []) cut))
          (append_assoc s (39 ∷ []) v) (string_body_lem v l (k + 2) (s ++ 39 ∷ []) cut (longer 39)))
  | inr e ↦
      subst (ReadAll (s ++ c ∷ v) cut)
        (sym (
          ap (λ (t : Text). string_body t l k s cut) (body-plain c v e)
          ∙ plain_unit c (body v) l k s cut e (omega (arith, h)) (length-body v)))
        (subst
          (λ (w : Text).
            ReadAll w cut (string_body (body v) (next_line c l) (next_col c k) (s ++ c ∷ []) cut))
          (append_assoc s (c ∷ []) v)
          (string_body_lem v (next_line c l) (next_col c k) (s ++ c ∷ []) cut (longer c)))
]
  where
    is_quote : (c == 39) ≡ true → c ≡ 39
    is_quote e = ground (arith, e)

    longer : (d : ℕ) → length (s ++ d ∷ []) + length v ≤ max_string_length
    longer d = omega (arith, h, length-append s (d ∷ []))

length-body_le : (v : Text) → length (body v) ≤ 2 * length v + 1
unfolding double_quotes
length-body_le [] = omega arith
length-body_le (c ∷ v) = ground (arith, length-body_le v)

-- The tokens of one literal.
abbrev pub literal_tokens : Text → ℕ → ℕ → LexResult
literal_tokens v line col = record {
  tokens =
      (record { kind = string_token; text = v; line = 1; col = 1 })
      ∷ (record { kind = eof; text = []; line = line; col = col })
      ∷ [];
  errors = [];
}

scan_done : (f : ℕ) (st : Lex) → st.at.rest ≡ [] → scan f st ≡ some st
unfolding scan
scan_done zero st h = rw h refl
scan_done (suc f) st h = rw h refl

-- The state of the lexer behind the literal.
abbrev behind : Text → Quoted → Lex
behind v q = record {
  at = q.at;
  tokens = (record { kind = string_token; text = v; line = 1; col = 1 }) ∷ [];
  errors = [];
  last_kind = some string_token;
}

abbrev literal_at_start : Text → Quoted
literal_at_start v = string_body (body v) 1 2 [] false

literal_step :
    (v : Text)
    → ReadAll v false (literal_at_start v)
    → scan_one 39 (body v) (lex_start (39 ∷ body v)) ≡ behind v (literal_at_start v)
unfolding scan_one scan_string
literal_step v (a, (t, (c, r))) = rw (a, t, c) refl

literal_scan :
    (v : Text)
    → ReadAll v false (literal_at_start v)
    → scan (length (39 ∷ body v)) (lex_start (39 ∷ body v)) ≡ some (behind v (literal_at_start v))
unfolding scan
literal_scan v r =
    ap (scan (length (body v))) (literal_step v r)
    ∙ scan_done (length (body v)) (behind v (literal_at_start v)) r.1.1.1

-- The printed text of a string literal that is not longer than the lexer allows is read back as one
-- token with the value of the literal, the end of the input behind it, and no error.
pub emit_sql-tokenize :
    (b : ExprBase) (v : Text)
    → length v ≤ max_string_length
    → (line : ℕ) × (col : ℕ) × (tokenize (emit_sql (string_literal b v))
        ≡ some (literal_tokens v line col))
unfolding tokenize emit_sql
emit_sql-tokenize b v h =
    let r = string_body_lem v 1 2 [] false (omega (arith, h)) in
    let q = literal_at_start v in (q.at.line, q.at.col, rw (short, literal_scan v r) refl)
  where
    short : ltb max_input_length (length (39 ∷ body v)) ≡ false
    short = ground (arith, length-body_le v, h)
