-- ===== src/Expression/Parser/Rules.antt =====
-- The rules for the helpers and the combinators of the parser
-- (packages/lattik-expression/src/parser/parse.ts).
use lattik_studio.Prelude.{
  ℕ, suc, ◌<◌, Bool, true, false, Option, none, some, List, [], ◌∷◌, ◌≡◌, refl, sym, ap, inl, inr,
  arith, length, append-nil, if◌then◌else◌, Bool-cases, All, ◌==◌, ==_iff, subst,
}
use lattik_studio.Expression.Lexer.Kinds.{TokenKind, eof, kind_eq, kind_code, mem_kind}
use lattik_studio.Expression.Lexer.Scan.{Token}
use lattik_studio.Expression.Lexer.Total.{Closed, last, more}
use lattik_studio.Expression.Parser.State.{
  ParseMessage, ParserState, Parser, ◌>>=◌, current, is_at_end, advance, error, head_token,
  add_error, check, expect, if_match, if_check, matched, located, here, step_over,
}
use lattik_studio.Expression.Parser.Steps.{
  Ends-after, Ends-pure, Ends-if, Ends-bind, Step, Step-le, Ends, ends,
}

-- A kind of which some listed kind is a copy is no end of the input, if none listed is.
abbrev pub NotEof : TokenKind → Type 0
NotEof k = kind_eq k eof ≡ false

pub mem_kind-NotEof :
    (k : TokenKind) (ks : List TokenKind) → All NotEof ks → mem_kind k ks ≡ true → NotEof k
unfolding mem_kind kind_eq
mem_kind-NotEof k [] a h = cc
mem_kind-NotEof k (j ∷ js) a h = elim (Bool-cases (kind_eq k j)) [
  | inl e ↦
      subst (λ (n : ℕ). (n == kind_code eof) ≡ false)
        (sym ((==_iff (kind_code k) (kind_code j)).0 e)) a.0
  | inr e ↦ mem_kind-NotEof k js a.1 (rw e at h)
]

Closed-Step :
    (s : ParserState) (ts : List Token)
    → s.rest ≡ ts
    → Closed ts
    → NotEof (current s).kind
    → Step s (step_over ts s) × (length (step_over ts s).rest < length s.rest)
Closed-Step s ts e (last t h) n =
    let m : NotEof t.kind = subst (λ (r : List Token). NotEof (head_token r).kind) e n in cc
Closed-Step s ts e (more t {ts = r} h c) n = (
  record {
    passed = t ∷ [];
    reads = e;
    closed = c;
    same_depth = refl;
    reported = [];
    adds = sym (append-nil s.errors);
  },
  omega (arith, ap length e),
)

-- A token that is not the end of the input is passed.
pub advance-passes :
    (s : ParserState)
    → Closed s.rest
    → NotEof (current s).kind
    → (t : ParserState) × (advance s ≡ some (current s, t))
      × Step s t
      × (length t.rest < length s.rest)
unfolding advance
advance-passes s c n =
    let (st, lt) = Closed-Step s s.rest refl c n in (step_over s.rest s, rw n refl, st, lt)

pub advance-Ends : (s : ParserState) → Closed s.rest → Ends s (advance s)
unfolding advance
advance-Ends s c = elim (Bool-cases (is_at_end s)) [
  | inl e ↦ rw e (Ends-pure (current s) c)
  | inr e ↦ rw e (ends (Closed-Step s s.rest refl c e).0)
]

add_error-Step : (m : ParseMessage) (s : ParserState) → Closed s.rest → Step s (add_error m s)
add_error-Step m s c = record {
  passed = [];
  reads = refl;
  closed = c;
  same_depth = refl;
  reported = _ ∷ [];
  adds = refl;
}

pub error-Ends : (m : ParseMessage) (s : ParserState) → Closed s.rest → Ends s (error m s)
unfolding error
error-Ends m s c = ends (add_error-Step m s c)

pub expect-Ends : (k : TokenKind) (s : ParserState) → Closed s.rest → Ends s (expect k s)
unfolding expect
expect-Ends k s c =
    Ends-if (kind_eq (current s).kind k) (λ _. advance-Ends s c) (λ _. ends (add_error-Step _ s c))

pub located-Ends : (t : Token) (s : ParserState) → Closed s.rest → Ends s (located t s)
unfolding located
located-Ends t s c = Ends-pure _ c

pub here-Ends : (s : ParserState) → Closed s.rest → Ends s (here s)
unfolding here
here-Ends s c = Ends-pure _ c

module _ {ℓ} {A : Type ℓ} where
  -- A call of `advance` at a token that is not the end of the input.
  pub Ends-pass :
      (q : Token → Parser A) {s : ParserState}
      → Closed s.rest
      → NotEof (current s).kind
      → ((tok : Token) (t : ParserState)
          → Step s t
          → length t.rest < length s.rest
          → Ends t (q tok t))
      → Ends s ((advance >>= q) s)
  Ends-pass q {s} c n k =
      let (t, e, st, lt) = advance-passes s c n in
      subst
        (λ (r : Option (Token × ParserState)).
          Ends s (elim r as (λ _. Option (A × ParserState)) [ none ↦ none | some (a, u) ↦ q a u ]))
        (sym e) (Ends-after st (k (current s) t st lt))

  pub Ends-match :
      (ks : List TokenKind) (found : Token → Parser A) (other : Parser A) {s : ParserState}
      → Closed s.rest
      → All NotEof ks
      → ((tok : Token) (t : ParserState)
          → Step s t
          → length t.rest < length s.rest
          → Ends t (found tok t))
      → Ends s (other s)
      → Ends s (if_match ks found other s)
  unfolding if_match
  Ends-match ks found other {s} c a k o =
      Ends-if (check ks s) (λ h. Ends-pass found c (mem_kind-NotEof (current s).kind ks a h) k)
        (λ _. o)

  -- The branch behind a test may rely on a token that is not the end of the input.
  pub Ends-check :
      (ks : List TokenKind) (found other : Parser A) {s : ParserState}
      → All NotEof ks
      → (NotEof (current s).kind → Ends s (found s))
      → Ends s (other s)
      → Ends s (if_check ks found other s)
  unfolding if_check
  Ends-check ks found other {s} a k o =
      Ends-if (check ks s) (λ h. k (mem_kind-NotEof (current s).kind ks a h)) (λ _. o)

pub matched-Ends :
    (ks : List TokenKind) (s : ParserState) → Closed s.rest → All NotEof ks → Ends s (matched ks s)
matched-Ends ks s c a =
    Ends-match ks _ _ c a (λ _ t st _. Ends-pure true st.closed) (Ends-pure false c)

-- The end of the input is in front of the position, and fewer than `n` tokens are.
pub record In (n : ℕ) (s : ParserState) : Type 0 where
  pub closed : Closed s.rest
  pub fewer : length s.rest < n

pub In-Step : {n : ℕ} {s t : ParserState} → In n s → Step s t → In n t
In-Step i st = record { closed = st.closed; fewer = omega (arith, i.fewer, Step-le st) }

-- Behind a token that has been passed one token fewer is left.
pub In-passed :
    {n : ℕ} {s t : ParserState} → In (suc n) s → Step s t → length t.rest < length s.rest → In n t
In-passed i st lt = record { closed = st.closed; fewer = omega (arith, i.fewer, lt) }

module _ {ℓ κ} {A : Type ℓ} {B : Type κ} where
  pub Ends-seq :
      {n : ℕ} (p : Parser A) (q : A → Parser B) {s : ParserState}
      → In n s
      → Ends s (p s)
      → ((a : A) (t : ParserState) → In n t → Step s t → Ends t (q a t))
      → Ends s ((p >>= q) s)
  Ends-seq p q i h k = Ends-bind p q h (λ a t st. k a t (In-Step i st) st)

-- A part of the parser that ends wherever fewer than `n` tokens are left.
abbrev pub EndsBelow {ℓ} : {A : Type ℓ} → ℕ → Parser A → Type ℓ
EndsBelow n p = (s : ParserState) → In n s → Ends s (p s)

-- The end of the input is still in front, so some token is.
pub Closed-pos : {ts : List Token} → Closed ts → 0 < length ts
Closed-pos (last t h) = omega arith
Closed-pos (more t h c) = omega arith

pub Ends-choose {ℓ} :
    {A : Type ℓ} (b : Bool) (p q : Parser A) {s : ParserState}
    → Ends s (p s)
    → Ends s (q s)
    → Ends s ((if b then p else q) s)
Ends-choose true p q h k = h
Ends-choose false p q h k = k

module _ {ℓ κ} {A : Type ℓ} {B : Type κ} where
  -- A part whose outcome is known, and what follows it.
  pub Ends-known :
      (p : Parser A) (q : A → Parser B) {s t : ParserState} {a : A}
      → p s ≡ some (a, t)
      → Step s t
      → Ends t (q a t)
      → Ends s ((p >>= q) s)
  Ends-known p q {s} e st k =
      subst
        (λ (r : Option (A × ParserState)).
          Ends s (elim r as (λ _. Option (B × ParserState)) [ none ↦ none | some (a, u) ↦ q a u ]))
        (sym e) (Ends-after st k)

pub matched_yes :
    (ks : List TokenKind) (s : ParserState)
    → Closed s.rest
    → All NotEof ks
    → check ks s ≡ true
    → (t : ParserState) × (matched ks s ≡ some (true, t))
      × Step s t
      × (length t.rest < length s.rest)
unfolding if_match
matched_yes ks s c a h =
    let (t, e, st, lt) = advance-passes s c (mem_kind-NotEof (current s).kind ks a h) in
    (
      t,
      rw h (
          ap
            (λ (r : Option (Token × ParserState)). elim r as (λ _. Option (Bool × ParserState)) [
              | none ↦ none
              | some (b, u) ↦ some (true, u)
            ])
            e),
      st,
      lt,
    )

pub matched_no :
    (ks : List TokenKind) (s : ParserState) → check ks s ≡ false → matched ks s ≡ some (false, s)
unfolding if_match
matched_no ks s h = rw h

pub expect-passes :
    (k : TokenKind) (s : ParserState)
    → Closed s.rest
    → NotEof k
    → check (k ∷ []) s ≡ true
    → (t : ParserState) × (expect k s ≡ some (current s, t))
      × Step s t
      × (length t.rest < length s.rest)
unfolding expect mem_kind
expect-passes k s c n h = elim (Bool-cases (kind_eq (current s).kind k)) [
  | inl e ↦
      let (t, p, st, lt) =
        advance-passes s c (mem_kind-NotEof (current s).kind (k ∷ []) (n, tt) h) in
      (t, rw e p, st, lt)
  | inr e ↦ cc (rw e at h)
]
