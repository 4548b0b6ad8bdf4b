-- ===== src/Expression/Lexer/Positions.antt =====
-- Positions in the input: what a cursor has passed, and the inner loops of the scanner
-- (packages/lattik-expression/src/parser/lexer.ts, `advance` and the loops of `tokenize`).
use lattik_studio.Prelude.{
  ℕ, ◌+◌, ◌≤◌, ◌<◌, Bool, true, false, some, [], ◌∷◌, ◌++◌, Text, ◌≡◌, ◌≢◌, refl, ap, ◌∙◌, inl, inr,
  arith, length, length-append, append_assoc, if◌then◌else◌, Bool-cases, ◌==◌, ◌&&◌, subst, leb,
  ◌||◌,
}
use lattik_studio.Expression.Lexer.Scan.{
  Cursor, next_line, next_col, cursor, span, fraction, string_body, quoted_body, is_digit,
  push_unit, max_string_length,
}

-- The line and the column behind a text that starts at the given ones.
abbrev pub line_after : Text → ℕ → ℕ
line_after [] l = l
line_after (c ∷ cs) l = line_after cs (next_line c l)

abbrev pub col_after : Text → ℕ → ℕ
col_after [] k = k
col_after (c ∷ cs) k = col_after cs (next_col c k)

-- The cursor is reached by passing a part of the text, and its position counts that part.
pub record Reaches (t : Text) (l k : ℕ) (q : Cursor) : Type 0 where
  pub passed : Text
  pub splits : t ≡ passed ++ q.rest
  pub line_counted : q.line ≡ line_after passed l
  pub col_counted : q.col ≡ col_after passed k

pub Reaches-here : (t : Text) (l k : ℕ) → Reaches t l k (cursor t l k)
Reaches-here t l k = record { passed = []; splits = refl; line_counted = refl; col_counted = refl }

pub Reaches-step :
    (c : ℕ) (cs : Text) (l k : ℕ) (q : Cursor)
    → Reaches cs (next_line c l) (next_col c k) q
    → Reaches (c ∷ cs) l k q
Reaches-step c cs l k q r = record {
  passed = c ∷ r.passed;
  splits = ap (λ (t : Text). c ∷ t) r.splits;
  line_counted = r.line_counted;
  col_counted = r.col_counted;
}

line_after-append : (a b : Text) (l : ℕ) → line_after (a ++ b) l ≡ line_after b (line_after a l)
line_after-append [] b l = refl
line_after-append (c ∷ a) b l = line_after-append a b (next_line c l)

col_after-append : (a b : Text) (k : ℕ) → col_after (a ++ b) k ≡ col_after b (col_after a k)
col_after-append [] b k = refl
col_after-append (c ∷ a) b k = col_after-append a b (next_col c k)

pub Reaches-trans :
    {t : Text} {l k : ℕ} {q r : Cursor}
    → Reaches t l k q
    → Reaches q.rest q.line q.col r
    → Reaches t l k r
Reaches-trans {t} {l} {k} {q} {r} a b = record {
  passed = a.passed ++ b.passed;
  splits = simp (append_assoc) (a.splits ∙ ap (λ (u : Text). a.passed ++ u) b.splits);
  line_counted = rw line_after-append (b.line_counted ∙ ap (line_after b.passed) a.line_counted);
  col_counted = rw col_after-append (b.col_counted ∙ ap (col_after b.passed) a.col_counted);
}

pub Reaches-le : {t : Text} {l k : ℕ} {q : Cursor} → Reaches t l k q → length q.rest ≤ length t
Reaches-le {t} {l} {k} {q} r = omega (arith, ap length r.splits, length-append {0} r.passed q.rest)

pub span-Reaches : (p : ℕ → Bool) (t : Text) (l k : ℕ) → Reaches t l k (span p t l k).1
unfolding span
span-Reaches p [] l k = Reaches-here [] l k
span-Reaches p (c ∷ cs) l k = elim (Bool-cases (p c)) [
  | inl h ↦ rw h (Reaches-step c cs l k _ (span-Reaches p cs (next_line c l) (next_col c k)))
  | inr h ↦ rw h (Reaches-here (c ∷ cs) l k)
]

pub span-lt :
    (p : ℕ → Bool) (c : ℕ) (cs : Text) (l k : ℕ)
    → p c ≡ true
    → length (span p (c ∷ cs) l k).1.rest < length (c ∷ cs)
unfolding span
span-lt p c cs l k h =
    rw h (omega (arith, Reaches-le (span-Reaches p cs (next_line c l) (next_col c k))))

pub plain_of : (c n : ℕ) → (c == n) ≡ true → n ≢ 10 → (c == 10) ≡ false
plain_of c n h e = ground arith

-- A code unit that is no newline moves the cursor one column on.
pub Reaches-plain :
    (c : ℕ) (cs : Text) (l k : ℕ) (q : Cursor)
    → (c == 10) ≡ false
    → Reaches cs l (k + 1) q
    → Reaches (c ∷ cs) l k q
Reaches-plain c cs l k q h r = Reaches-step c cs l k q (
    rw (ap (λ (b : Bool). if b then l + 1 else l) h, ap (λ (b : Bool). if b then 1 else k + 1) h) r)

pub Reaches-two :
    (c d : ℕ) (cs : Text) (l k : ℕ) (q : Cursor)
    → (c == 10) ≡ false
    → (d == 10) ≡ false
    → Reaches cs l (k + 2) q
    → Reaches (c ∷ d ∷ cs) l k q
Reaches-two c d cs l k q h e r =
    Reaches-plain c (d ∷ cs) l k q h
      (Reaches-plain d cs l (k + 1) q e (subst (λ (n : ℕ). Reaches cs l n q) (omega arith) r))

pub string_body-Reaches :
    (t : Text) (l k : ℕ) (s : Text) (cut : Bool) → Reaches t l k (string_body t l k s cut).at
unfolding string_body
string_body-Reaches [] l k s cut = Reaches-here [] l k
string_body-Reaches (c ∷ []) l k s cut = elim (Bool-cases (c == 39)) [
  | inl h ↦
      rw (h, string_body)
        (Reaches-plain c [] l k _ (plain_of c 39 h (omega arith)) (Reaches-here [] l (k + 1)))
  | inr h ↦
      rw (h, string_body) (Reaches-step c [] l k _ (Reaches-here [] (next_line c l) (next_col c k)))
]
string_body-Reaches (c ∷ d ∷ cs) l k s cut = elim (Bool-cases (c == 39)) [
  | inl h ↦ elim (Bool-cases (d == 39)) [
    | inl e ↦
        rw (h, e, string_body)
          (Reaches-two c d cs l k _ (plain_of c 39 h (omega arith)) (plain_of d 39 e (omega arith))
            (string_body-Reaches cs l (k + 2) (s ++ 39 ∷ []) cut))
    | inr e ↦
        rw (h, e, string_body)
          (Reaches-plain c (d ∷ cs) l k _ (plain_of c 39 h (omega arith))
            (Reaches-here (d ∷ cs) l (k + 1)))
  ]
  | inr h ↦
      rw (h, string_body)
        (Reaches-step c (d ∷ cs) l k _ (
          string_body-Reaches (d ∷ cs) (next_line c l) (next_col c k) (push_unit s c)
            (cut || leb max_string_length (length s))))
]

pub quoted_body-Reaches :
    (t : Text) (l k : ℕ) (s : Text) (cut : Bool) → Reaches t l k (quoted_body t l k s cut).at
unfolding quoted_body
quoted_body-Reaches [] l k s cut = Reaches-here [] l k
quoted_body-Reaches (c ∷ cs) l k s cut = elim (Bool-cases (c == 34)) [
  | inl h ↦
      rw (h, quoted_body)
        (Reaches-plain c cs l k _ (plain_of c 34 h (omega arith)) (Reaches-here cs l (k + 1)))
  | inr h ↦
      rw (h, quoted_body)
        (Reaches-step c cs l k _ (
          quoted_body-Reaches cs (next_line c l) (next_col c k) (push_unit s c)
            (cut || leb max_string_length (length s))))
]

pub fraction-Reaches :
    (t : Text) (l k : ℕ) (f : Text × Cursor) → fraction t l k ≡ some f → Reaches t l k f.1
unfolding fraction
fraction-Reaches [] l k f h = cc
fraction-Reaches (p ∷ []) l k f h = cc
fraction-Reaches (p ∷ d ∷ cs) l k f h = elim (Bool-cases (p == b'.' && is_digit d)) [
  | inl e ↦
      let out = span is_digit (d ∷ cs) l (k + 1) in
      subst (λ (g : Text × Cursor). Reaches (p ∷ d ∷ cs) l k g.1) {x = (p ∷ out.0, out.1)} {y = f}
        (cc (rw e at h))
        (Reaches-plain p (d ∷ cs) l k _ (plain_of p b'.' (ground arith) (omega arith))
          (span-Reaches is_digit (d ∷ cs) l (k + 1)))
  | inr e ↦ cc (rw e at h)
]
