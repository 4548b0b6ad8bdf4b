-- ===== src/Expression/Parser/Laws.antt =====
-- What `parse` promises: a result for every input, an expression exactly when there is no error,
-- and a cache that changes no result (packages/lattik-expression/src/parser/parse.ts).
use lattik_studio.Prelude.{
  ℕ, ◌+◌, ◌≤◌, ◌<◌, true, Option, none, some, List, [], ◌∷◌, Text, text_eq, text_eq_sound, ◌≡◌,
  refl, sym, ap, subst, ◌∙◌, arith, length, All, Bool-cases, Option-cases, inl, inr, ltb, leb,
}
use mathlib.Core.Path.{ap₂}
use lattik_studio.Expression.Lexer.Scan.{Token, LexResult, LexError}
use lattik_studio.Expression.Lexer.Total.{Closed, tokenize_total}
use lattik_studio.Expression.Nodes.{Expr}
use lattik_studio.Expression.Parser.State.{ParserState, ParseError}
use lattik_studio.Expression.Parser.Levels.{parse_expr}
use lattik_studio.Expression.Parser.Parse.{
  ParseResult, parse_start, demand_end, result_of, parse_tokens, refuse_lexical, parse_lexed,
  parse_outcome, parse_fresh, finish, answer, Cache, cache_capacity, max_cached_length, cache_get,
  cache_delete, cache_set, cache_touch, evict, cache_store, parse,
}
use lattik_studio.Expression.Parser.Steps.{Step, Ends, Ends-inv}
use lattik_studio.Expression.Parser.Total.Predicates.{parse_expr-Ends}

-- The result holds an expression, and no error; or errors, and no expression.
pub data Verdict : ParseResult → Type 0 where
  accepted : (e : Expr) → Verdict (record { expr = some e; errors = [] })
  refused :
      (e : ParseError) (es : List ParseError) → Verdict (record { expr = none; errors = e ∷ es })

result_of-Verdict : (e : Expr) (errors : List ParseError) → Verdict (result_of e errors)
result_of-Verdict e [] = accepted e
result_of-Verdict e (x ∷ xs) = refused x xs

finish_total :
    {s : ParserState} (o : Option (Expr × ParserState))
    → Ends s o
    → (r : ParseResult) × (finish o ≡ some r) × Verdict r
finish_total none h = elim h [ ]
finish_total (some (e, t)) h =
    (result_of e (demand_end t).errors, refl, result_of-Verdict e (demand_end t).errors)

-- The parser of expressions ends wherever the end of the input closes the tokens, with a unit of
-- fuel for each of them: it reads tokens from the left, keeps the end of the input in front,
-- restores the depth, and only adds to the errors.
pub parse_expr_total :
    (n : ℕ) (s : ParserState)
    → Closed s.rest
    → length s.rest ≤ n
    → (e : Expr) × (t : ParserState) × (parse_expr n s ≡ some (e, t)) × Step s t
parse_expr_total n s c l =
    Ends-inv (parse_expr-Ends n s (record { closed = c; fewer = omega (arith, l) }))

pub parse_tokens_total :
    (ts : List Token) → Closed ts → (r : ParseResult) × (parse_tokens ts ≡ some r) × Verdict r
unfolding parse_tokens
parse_tokens_total ts c =
    finish_total (parse_expr (length ts) (parse_start ts))
      (parse_expr-Ends (length ts) (parse_start ts) (record { closed = c; fewer = omega arith }))

parse_lexed_total :
    (errors : List LexError) (ts : List Token)
    → Closed ts
    → (r : ParseResult) × (parse_lexed errors ts ≡ some r) × Verdict r
unfolding parse_lexed
parse_lexed_total [] ts c = parse_tokens_total ts c
parse_lexed_total (x ∷ xs) ts c = (refuse_lexical (x ∷ xs), refl, refused _ _)

-- The parser gives a result for every input: an expression and no error, or errors and no
-- expression.
pub parse_fresh_total :
    (input : Text) → (r : ParseResult) × (parse_fresh input ≡ some r) × Verdict r
unfolding parse_fresh
parse_fresh_total input =
    let (lexed, p, c, _) = tokenize_total input in
    subst (λ (o : Option LexResult). (r : ParseResult) × (parse_outcome o ≡ some r) × Verdict r)
      (sym p) (parse_lexed_total lexed.errors lexed.tokens c)

-- Every entry of the cache is what a fresh run on its input gives.
abbrev pub IsFresh : Text × ParseResult → Type 0
IsFresh e = parse_fresh e.0 ≡ some e.1

pub record IsSound (m : Cache) : Type 0 where
  pub fresh : All IsFresh m
  pub bounded : length m ≤ cache_capacity

cache_get-IsFresh :
    (k : Text) (m : Cache) (v : ParseResult)
    → All IsFresh m
    → cache_get k m ≡ some v
    → parse_fresh k ≡ some v
unfolding cache_get
cache_get-IsFresh k [] v a h = cc
cache_get-IsFresh k ((j, w) ∷ m) v a h = elim (Bool-cases (text_eq j k)) [
  | inl e ↦ subst (λ (t : Text). parse_fresh t ≡ some v) (text_eq_sound j k e) (a.0 ∙ (rw e at h))
  | inr e ↦ cache_get-IsFresh k m v a.1 (rw e at h)
]

cache_delete-IsFresh : (k : Text) (m : Cache) → All IsFresh m → All IsFresh (cache_delete k m)
unfolding cache_delete
cache_delete-IsFresh k [] a = tt
cache_delete-IsFresh k ((j, w) ∷ m) a = elim (Bool-cases (text_eq j k)) [
  | inl e ↦ rw (e, cache_delete) a.1
  | inr e ↦ rw (e, cache_delete) (a.0, cache_delete-IsFresh k m a.1)
]

cache_set-IsFresh :
    (k : Text) (v : ParseResult) (m : Cache)
    → parse_fresh k ≡ some v
    → All IsFresh m
    → All IsFresh (cache_set k v m)
unfolding cache_set
cache_set-IsFresh k v [] h a = (h, tt)
cache_set-IsFresh k v ((j, w) ∷ m) h a = elim (Bool-cases (text_eq j k)) [
  | inl e ↦
      rw (e, cache_set)
        (subst (λ (t : Text). parse_fresh t ≡ some v) (sym (text_eq_sound j k e)) h, a.1)
  | inr e ↦ rw (e, cache_set) (a.0, cache_set-IsFresh k v m h a.1)
]

length-cache_delete :
    (k : Text) (m : Cache) (v : ParseResult)
    → cache_get k m ≡ some v
    → length (cache_delete k m) + 1 ≡ length m
unfolding cache_get cache_delete
length-cache_delete k [] v h = cc
length-cache_delete k ((j, w) ∷ m) v h = elim (Bool-cases (text_eq j k)) [
  | inl e ↦ rw (e, cache_delete) (omega arith)
  | inr e ↦ rw (e, cache_delete) (omega (arith, length-cache_delete k m v (rw e at h)))
]

length-cache_set :
    (k : Text) (v : ParseResult) (m : Cache) → length (cache_set k v m) ≤ length m + 1
unfolding cache_set
length-cache_set k v [] = omega arith
length-cache_set k v ((j, w) ∷ m) = ground (arith, length-cache_set k v m)

evict-IsSound :
    (m : Cache)
    → IsSound m
    → leb cache_capacity (length m) ≡ true
    → All IsFresh (evict m) × (length (evict m) < cache_capacity)
evict-IsSound [] s h = (tt, omega arith)
evict-IsSound (e ∷ m) s h = (s.fresh.1, omega (arith, s.bounded))

cache_touch-IsSound :
    (k : Text) (v : ParseResult) (m : Cache)
    → IsSound m
    → cache_get k m ≡ some v
    → IsSound (cache_touch k v m)
unfolding cache_touch
cache_touch-IsSound k v m s h = record {
  fresh =
      cache_set-IsFresh k v _ (cache_get-IsFresh k m v s.fresh h)
        (cache_delete-IsFresh k m s.fresh);
  bounded =
      omega
        (arith, s.bounded, length-cache_set k v (cache_delete k m), length-cache_delete k m v h);
}

cache_store-IsSound :
    (k : Text) (v : ParseResult) (m : Cache)
    → IsSound m
    → parse_fresh k ≡ some v
    → IsSound (cache_store k v m)
unfolding cache_store
cache_store-IsSound k v m s h = elim (Bool-cases (ltb max_cached_length (length k))) [
  | inl e ↦ rw (e, cache_store) s
  | inr e ↦ elim (Bool-cases (leb cache_capacity (length m))) [
    | inl full ↦
        let (a, b) = evict-IsSound m s full in
        rw (e, full, cache_store)
          (record {
            fresh = cache_set-IsFresh k v (evict m) h a;
            bounded = omega (arith, b, length-cache_set k v (evict m));
          })
    | inr room ↦
        rw (e, room, cache_store)
          (record {
            fresh = cache_set-IsFresh k v m h s.fresh;
            bounded = ground (arith, length-cache_set k v m);
          })
  ]
]

-- With a sound cache, `parse` gives what a fresh run on the input gives, and leaves a sound
-- cache: no entry differs from a fresh run, and no more than the capacity are kept.
pub parse_transparent :
    (input : Text) (m : Cache)
    → IsSound m
    → (r : ParseResult) × (m' : Cache) × (parse input m ≡ some (r, m'))
      × (parse_fresh input ≡ some r)
      × IsSound m'
unfolding parse
parse_transparent input m s =
    let (r, p, _) = parse_fresh_total input in
    elim (Option-cases (cache_get input m)) [
      | inl miss ↦ (
        r,
        cache_store input r m,
        ap₂ (answer input m) miss p,
        p,
        cache_store-IsSound input r m s p,
      )
      | inr (v, hit) ↦ (
        v,
        cache_touch input v m,
        ap (λ (o : Option ParseResult). answer input m o (parse_fresh input)) hit,
        cache_get-IsFresh input m v s.fresh hit,
        cache_touch-IsSound input v m s hit,
      )
    ]
