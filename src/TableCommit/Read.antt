-- ===== src/TableCommit/Read.antt =====
-- `GET` with mode=ds of apps/web/src/app/api/lattik/commit/route.ts, behind the tests of its
-- parameters: the loads of a day, of the hour asked for or of the latest hour of each column.
use lattik_studio.Prelude.{
  ℕ, Bool, true, false, Option, none, some, List, [], ◌∷◌, Text, text_eq, ◌==◌, ◌&&◌, ltb,
  if◌then◌else◌, map, mem_text, codes,
}
use lattik_studio.TableCommit.Store.{ColumnLoad}

-- An entry of `columnLoads`.
pub record Pick : Type 0 where
  pub column : Text
  pub load_id : Text
  pub hour : Option ℕ

-- `(a ?? -1) > (b ?? -1)`, for hours that are not negative.
abbrev pub later : Option ℕ → Option ℕ → Bool
later none b = false
later (some a) none = true
later (some a) (some b) = ltb b a

abbrev pub pick_of_row : ColumnLoad → Pick
pick_of_row r = record { column = r.key.column; load_id = r.load_id; hour = r.key.hour }

-- `columnLoads`, an object that is written in the loop: its own entries, and the object that an
-- assignment to `__proto__` has made its prototype.
pub record Loads : Type 0 where
  pub own : List Pick
  pub prototype : Option Pick

abbrev pub no_loads : Loads
no_loads = record { own = []; prototype = none }

unfoldable pub pick_of : Text → List Pick → Option Pick
pick_of c [] = none
pick_of c (p ∷ ps) = if text_eq p.column c then some p else pick_of c ps

-- The members of `Object.prototype`, which every object inherits.
unfoldable pub object_members : List Text
object_members =
    codes "__proto__"
    ∷ codes "constructor"
    ∷ codes "hasOwnProperty"
    ∷ codes "isPrototypeOf"
    ∷ codes "propertyIsEnumerable"
    ∷ codes "toLocaleString"
    ∷ codes "toString"
    ∷ codes "valueOf"
    ∷ codes "__defineGetter__"
    ∷ codes "__defineSetter__"
    ∷ codes "__lookupGetter__"
    ∷ codes "__lookupSetter__"
    ∷ []

-- The number 0 and `null` are falsy; any other number has no `hour`.
abbrev number_hour : Option ℕ → Option (Option ℕ)
number_hour none = none
number_hour (some h) = if h == 0 then none else some none

-- The `hour` of an inherited member, if there is one and it is truthy.
abbrev pub inherited_hour : Text → Option Pick → Option (Option ℕ)
inherited_hour c none = if mem_text c object_members then some none else none
inherited_hour c (some p) =
    if text_eq c (codes "__proto__")
    then some p.hour
    else if text_eq c (codes "load_id")
    then some none
    else if text_eq c (codes "hour")
    then number_hour p.hour
    else if mem_text c object_members
    then some none
    else none

-- The `hour` of `columnLoads[column]`; none if that is falsy.
abbrev pub entry_hour : Text → Loads → Option (Option ℕ)
entry_hour c s = hour_of (pick_of c s.own)
  where
    hour_of : Option Pick → Option (Option ℕ)
    hour_of (some p) = some p.hour
    hour_of none = inherited_hour c s.prototype

unfoldable pub put_pick : Pick → List Pick → List Pick
put_pick q [] = q ∷ []
put_pick q (p ∷ ps) = if text_eq p.column q.column then q ∷ ps else p ∷ put_pick q ps

-- `columnLoads[column] = ...`.
abbrev pub store_row : ColumnLoad → Loads → Loads
store_row r s =
    if text_eq r.key.column (codes "__proto__")
    then record s { prototype = some (pick_of_row r) }
    else record s { own = put_pick (pick_of_row r) s.own }

-- One round of the loop over the rows.
unfoldable pub pick_row : ColumnLoad → Loads → Loads
unfolding pick_of put_pick
pick_row r s = elim (entry_hour r.key.column s) [
  | none ↦ store_row r s
  | some h ↦ if later r.key.hour h then store_row r s else s
]

unfoldable pub pick_all : List ColumnLoad → Loads → Loads
unfolding pick_row
pick_all [] s = s
pick_all (r ∷ rs) s = pick_all rs (pick_row r s)

abbrev hour_in : Option ℕ → Option ℕ → Bool
hour_in none h = true
hour_in (some n) none = false
hour_in (some n) (some m) = m == n

-- The condition of the query; a row with no hour is not of any hour asked for.
abbrev pub in_scope : Text → Text → Option ℕ → ColumnLoad → Bool
in_scope table ds hour r =
    text_eq r.key.table table && (text_eq r.key.ds ds && hour_in hour r.key.hour)

unfoldable pub selected : Text → Text → Option ℕ → List ColumnLoad → List ColumnLoad
selected table ds hour [] = []
selected table ds hour (r ∷ rs) =
    if in_scope table ds hour r then r ∷ selected table ds hour rs else selected table ds hour rs

-- `requestedColumns.filter((c) => !columnLoads[c])`.
unfoldable pub missing : Loads → List Text → List Text
unfolding pick_of
missing s [] = []
missing s (c ∷ cs) = elim (entry_hour c s) [ none ↦ c ∷ missing s cs | some h ↦ missing s cs ]

pub data DsReply : Type 0 where
  not_loaded : List Text → List Text → DsReply
  loaded : List (Text × Text) → DsReply

abbrev pub reply_if : List Pick → List Text → DsReply
reply_if ps [] = loaded (map (λ (p : Pick). (p.column, p.load_id)) ps)
reply_if ps (c ∷ cs) = not_loaded (map (λ (p : Pick). p.column) ps) (c ∷ cs)

-- The reply, for the columns asked for.
unfoldable pub read_ds : Text → Text → Option ℕ → List Text → List ColumnLoad → DsReply
unfolding selected pick_all missing
read_ds table ds hour columns rows =
    let s = pick_all (selected table ds hour rows) no_loads in reply_if s.own (missing s columns)
