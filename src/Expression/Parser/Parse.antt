-- ===== src/Expression/Parser/Parse.antt =====
-- `parse` and its cache of recent results (packages/lattik-expression/src/parser/parse.ts).
use lattik_studio.Prelude.{
  ℕ, Bool, true, false, Option, none, some, List, [], ◌∷◌, map, Text, text_eq, length, ltb, leb,
  if◌then◌else◌,
}
use lattik_studio.Expression.Lexer.Scan.{Token, LexError, LexResult, tokenize}
use lattik_studio.Expression.Nodes.{Expr}
use lattik_studio.Expression.Parser.State.{
  ParseError, ParserState, add_error, current, is_at_end, lexical, unexpected_token,
}
use lattik_studio.Expression.Parser.Levels.{parse_expr}

pub record ParseResult : Type 0 where
  pub expr : Option Expr
  pub errors : List ParseError

abbrev pub parse_start : List Token → ParserState
parse_start ts = record { previous = none; rest = ts; errors = []; depth = 0 }

-- `if (!parser.isAtEnd()) parser.error(...)`.
abbrev pub demand_end : ParserState → ParserState
demand_end s = if is_at_end s then s else add_error (unexpected_token (current s).text) s

abbrev pub no_error : List ParseError → Bool
no_error [] = true
no_error (e ∷ es) = false

abbrev pub result_of : Expr → List ParseError → ParseResult
result_of e errors = record { expr = if no_error errors then some e else none; errors = errors }

-- The result of a run that ends in the given state.
abbrev pub finish : Option (Expr × ParserState) → Option ParseResult
finish none = none
finish (some (e, t)) = some (result_of e (demand_end t).errors)

-- A run of the parser; a unit of fuel for each token is enough.
unfoldable pub parse_tokens : List Token → Option ParseResult
unfolding parse_expr
parse_tokens ts = finish (parse_expr (length ts) (parse_start ts))

abbrev pub as_parse_error : LexError → ParseError
as_parse_error e = record { line = e.line; col = e.col; message = lexical e.message }

abbrev pub refuse_lexical : List LexError → ParseResult
refuse_lexical errors = record { expr = none; errors = map as_parse_error errors }

-- The tokens are parsed only if the lexer has no error.
unfoldable pub parse_lexed : List LexError → List Token → Option ParseResult
unfolding parse_tokens
parse_lexed [] ts = parse_tokens ts
parse_lexed (e ∷ es) ts = some (refuse_lexical (e ∷ es))

abbrev pub parse_outcome : Option LexResult → Option ParseResult
parse_outcome none = none
parse_outcome (some r) = parse_lexed r.errors r.tokens

-- `parse` behind a miss of the cache.
unfoldable pub parse_fresh : Text → Option ParseResult
unfolding tokenize parse_lexed
parse_fresh input = parse_outcome (tokenize input)

abbrev pub cache_capacity : ℕ
cache_capacity = 256

abbrev pub max_cached_length : ℕ
max_cached_length = 8192

-- `parseCache`: a map with its entries in the order of insertion, the oldest first.
abbrev pub Cache : Type 0
Cache = List (Text × ParseResult)

unfoldable pub cache_get : Text → Cache → Option ParseResult
cache_get k [] = none
cache_get k ((j, v) ∷ m) = if text_eq j k then some v else cache_get k m

unfoldable pub cache_delete : Text → Cache → Cache
cache_delete k [] = []
cache_delete k ((j, v) ∷ m) = if text_eq j k then m else (j, v) ∷ cache_delete k m

-- `Map.set`: a new key goes to the end, and a key that is there keeps its place.
unfoldable pub cache_set : Text → ParseResult → Cache → Cache
cache_set k v [] = (k, v) ∷ []
cache_set k v ((j, w) ∷ m) = if text_eq j k then (j, v) ∷ m else (j, w) ∷ cache_set k v m

-- `cacheLookup` on a hit: the entry becomes the newest.
unfoldable pub cache_touch : Text → ParseResult → Cache → Cache
unfolding cache_delete cache_set
cache_touch k v m = cache_set k v (cache_delete k m)

-- `parseCache.delete(oldest)`.
abbrev pub evict : Cache → Cache
evict [] = []
evict (e ∷ m) = m

-- `cacheStore`.
unfoldable pub cache_store : Text → ParseResult → Cache → Cache
unfolding cache_set
cache_store k v m =
    if ltb max_cached_length (length k)
    then m
    else cache_set k v (if leb cache_capacity (length m) then evict m else m)

-- `parse` on the cache's answer, and on that of a fresh run.
abbrev pub answer :
    Text → Cache → Option ParseResult → Option ParseResult → Option (ParseResult × Cache)
answer input m (some hit) fresh = some (hit, cache_touch input hit m)
answer input m none (some r) = some (r, cache_store input r m)
answer input m none none = none

-- `parse`: the result and the cache behind the call.
unfoldable pub parse : Text → Cache → Option (ParseResult × Cache)
unfolding parse_fresh cache_get cache_touch cache_store
parse input m = let fresh = parse_fresh input in answer input m (cache_get input m) fresh
