-- ===== src/Expression/Parser/Steps.antt =====
-- What every part of the parser does to its state: rules for its helpers and combinators
-- (packages/lattik-expression/src/parser/parse.ts).
use lattik_studio.Prelude.{
  ◌≤◌, Bool, true, false, Option, none, some, List, [], ◌++◌, ◌≡◌, refl, sym, ap, ◌∙◌, arith,
  length, length-append, append_assoc, append-nil, if◌then◌else◌,
}
use lattik_studio.Expression.Lexer.Scan.{Token}
use lattik_studio.Expression.Lexer.Total.{Closed}
use lattik_studio.Expression.Parser.State.{ParseError, ParserState, Parser, ◌>>=◌, ◌>>◌}

-- From the first state to the second the parser passes tokens from the left, keeps the end of
-- the input in front of it, restores the depth, and adds to its errors.
pub record Step (s t : ParserState) : Type 0 where
  pub passed : List Token
  pub reads : s.rest ≡ passed ++ t.rest
  pub closed : Closed t.rest
  pub same_depth : t.depth ≡ s.depth
  pub reported : List ParseError
  pub adds : t.errors ≡ s.errors ++ reported

pub Step-here : (s : ParserState) → Closed s.rest → Step s s
Step-here s c = record {
  passed = [];
  reads = refl;
  closed = c;
  same_depth = refl;
  reported = [];
  adds = sym (append-nil s.errors);
}

pub Step-trans : {s t u : ParserState} → Step s t → Step t u → Step s u
Step-trans {s} {t} {u} a b = record {
  passed = a.passed ++ b.passed;
  reads = simp append_assoc (a.reads ∙ ap (λ (r : List Token). a.passed ++ r) b.reads);
  closed = b.closed;
  same_depth = b.same_depth ∙ a.same_depth;
  reported = a.reported ++ b.reported;
  adds = simp (← append_assoc) (b.adds ∙ ap (λ (r : List ParseError). r ++ b.reported) a.adds);
}

pub Step-le : {s t : ParserState} → Step s t → length t.rest ≤ length s.rest
Step-le {s} {t} a = omega (arith, ap length a.reads, length-append {0} a.passed t.rest)

-- The run ends, with a step from the given state.
pub data Ends {ℓ} {A : Type ℓ} (s : ParserState) : Option (A × ParserState) → Type ℓ where
  ends : {a : A} {t : ParserState} → Step s t → Ends s (some (a, t))

module _ {ℓ} {A : Type ℓ} where
  pub Ends-after :
      {s t : ParserState} {r : Option (A × ParserState)} → Step s t → Ends t r → Ends s r
  Ends-after a (ends b) = ends (Step-trans a b)

  pub Ends-pure : {s : ParserState} (a : A) → Closed s.rest → Ends s (some (a, s))
  Ends-pure {s} a c = ends (Step-here s c)

  pub Ends-inv :
      {s : ParserState} {r : Option (A × ParserState)}
      → Ends s r
      → (a : A) × (t : ParserState) × (r ≡ some (a, t)) × Step s t
  Ends-inv (ends {a} {t} h) = (a, t, refl, h)

  pub Ends-if :
      {s : ParserState} (b : Bool) {x y : Option (A × ParserState)}
      → (b ≡ true → Ends s x)
      → (b ≡ false → Ends s y)
      → Ends s (if b then x else y)
  Ends-if true f g = f refl
  Ends-if false f g = g refl

module _ {ℓ κ} {A : Type ℓ} {B : Type κ} where
  pub Ends-bind :
      (p : Parser A) (q : A → Parser B) {s : ParserState}
      → Ends s (p s)
      → ((a : A) (t : ParserState) → Step s t → Ends t (q a t))
      → Ends s ((p >>= q) s)
  Ends-bind p q {s} h k = go (p s) h
    where
      go :
          (r : Option (A × ParserState))
          → Ends s r
          → Ends s (elim r as (λ _. Option (B × ParserState)) [ none ↦ none | some (a, t) ↦ q a t ])
      go none (h') = elim h' [ ]
      go (some (a, t)) (ends st) = Ends-after st (k a t st)

  pub Ends-then :
      (p : Parser A) (q : Parser B) {s : ParserState}
      → Ends s (p s)
      → ((t : ParserState) → Step s t → Ends t (q t))
      → Ends s ((p >> q) s)
  Ends-then p q h k = Ends-bind p (λ _. q) h (λ _ t st. k t st)
