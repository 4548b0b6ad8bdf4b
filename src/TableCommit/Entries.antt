-- ===== src/TableCommit/Entries.antt =====
-- The entries that a read of a day ends with (TableCommit/Read.antt).
use lattik_studio.Prelude.{
  ℕ, ◌≡◌, ◌⊎◌, refl, sym, ◌∙◌, Bool, true, false, Option, none, some, List, [], ◌∷◌, Text, text_eq,
  text_eq_sound, text_eq_refl, ◌&&◌, if◌then◌else◌, arith, Bool-cases, inl, inr, mem_text, codes,
  not, ◌||◌, Option-cases, subst,
}
use lattik_studio.TableCommit.Store.{ColumnLoad}
use lattik_studio.TableCommit.Read.{
  Pick, later, pick_of_row, Loads, no_loads, pick_of, object_members, inherited_hour, entry_hour,
  put_pick, store_row, pick_row, pick_all,
}

pub data Listed (r : ColumnLoad) : List ColumnLoad → Type 0 where
  here : {rs : List ColumnLoad} → Listed r (r ∷ rs)
  there : {x : ColumnLoad} {rs : List ColumnLoad} → Listed r rs → Listed r (x ∷ rs)

pick_of-put_pick :
    (c : Text) (q : Pick) (ps : List Pick)
    → pick_of c (put_pick q ps) ≡ (if text_eq q.column c then some q else pick_of c ps)
unfolding pick_of put_pick
pick_of-put_pick c q [] = refl
pick_of-put_pick c q (p ∷ ps) = ground (
  arith,
  pick_of-put_pick c q ps,
  text_eq_sound p.column q.column,
  text_eq_sound p.column c,
  text_eq_sound q.column c,
  text_eq_refl c,
)

-- A store gives the row's column its entry, unless the column is `__proto__`, and no other.
pick_of-store_row :
    (c : Text) (r : ColumnLoad) (s : Loads)
    → pick_of c (store_row r s).own ≡ (
        if text_eq r.key.column c && not (text_eq c (codes "__proto__"))
        then some (pick_of_row r)
        else pick_of c s.own)
pick_of-store_row c r s = ground (
  arith,
  pick_of-put_pick c (pick_of_row r) s.own,
  text_eq_sound r.key.column c,
  text_eq_sound r.key.column (codes "__proto__"),
  text_eq_refl c,
  text_eq_refl (codes "__proto__"),
  text_eq_sound c (codes "__proto__"),
)

-- A name under which the object can have a value that is not an entry of its own.
abbrev pub is_shadowed : Text → Bool
is_shadowed c =
    text_eq c (codes "__proto__")
    || (text_eq c (codes "load_id") || (text_eq c (codes "hour") || mem_text c object_members))

inherited-none : (c : Text) (o : Option Pick) → is_shadowed c ≡ false → inherited_hour c o ≡ none
inherited-none c none h = ground (arith, h)
inherited-none c (some p) h = ground (arith, h)

later_trans : (a b c : Option ℕ) → later a b ≡ false → later b c ≡ false → later a c ≡ false
later_trans none b c p q = refl
later_trans (some a) none c p q = cc
later_trans (some a) (some b) none p q = cc
later_trans (some a) (some b) (some c) p q = ground arith

later_irrefl : (a : Option ℕ) → later a a ≡ false
later_irrefl none = refl
later_irrefl (some a) = ground arith

-- Not later the other way round.
later_asym : (a b : Option ℕ) → later a b ≡ true → later b a ≡ false
later_asym none b p = cc
later_asym (some a) none p = refl
later_asym (some a) (some b) p = ground arith

-- The entry of a column, and that no given hour is later than its hour.
abbrev Bounds : Text → Option ℕ → Loads → Type 0
Bounds c h s = (p : Pick) × (pick_of c s.own ≡ some p) × (later h p.hour ≡ false)

pick_row_other :
    (c : Text) (r : ColumnLoad) (s : Loads)
    → text_eq r.key.column c ≡ false
    → pick_of c (pick_row r s).own ≡ pick_of c s.own
unfolding pick_row
pick_row_other c r s n = elim (Option-cases (entry_hour r.key.column s)) [
  | inl e ↦ rw (e, pick_row) (ground (arith, pick_of-store_row c r s, n))
  | inr (h, e) ↦ elim (Bool-cases (later r.key.hour h)) [
    | inl l ↦ rw (e, pick_row, l) (ground (arith, pick_of-store_row c r s, n))
    | inr l ↦ rw (e, pick_row, l) refl
  ]
]

stored_here :
    (r : ColumnLoad) (s : Loads)
    → is_shadowed r.key.column ≡ false
    → pick_of r.key.column (store_row r s).own ≡ some (pick_of_row r)
stored_here r s u = ground (arith, pick_of-store_row r.key.column r s, u, text_eq_refl r.key.column)

-- The first row of a column.
pick_row_first :
    (r : ColumnLoad) (s : Loads)
    → is_shadowed r.key.column ≡ false
    → pick_of r.key.column s.own ≡ none
    → pick_of r.key.column (pick_row r s).own ≡ some (pick_of_row r)
unfolding pick_row
pick_row_first r s u e =
    rw (e, inherited-none r.key.column s.prototype u, pick_row) (stored_here r s u)

-- A further row of a column.
pick_row_next :
    (r : ColumnLoad) (s : Loads) (p : Pick)
    → is_shadowed r.key.column ≡ false
    → pick_of r.key.column s.own ≡ some p
    → pick_of r.key.column (pick_row r s).own
      ≡ some (if later r.key.hour p.hour then pick_of_row r else p)
unfolding pick_row
pick_row_next r s p u e = elim (Bool-cases (later r.key.hour p.hour)) [
  | inl l ↦ rw (e, pick_row, l) (stored_here r s u)
  | inr l ↦ rw (e, pick_row, l) e
]

pick_row-own :
    (r : ColumnLoad) (s : Loads)
    → is_shadowed r.key.column ≡ false
    → Bounds r.key.column r.key.hour (pick_row r s)
pick_row-own r s u = elim (Option-cases (pick_of r.key.column s.own)) [
  | inl e ↦ (pick_of_row r, pick_row_first r s u e, later_irrefl r.key.hour)
  | inr (p, e) ↦ elim (Bool-cases (later r.key.hour p.hour)) [
    | inl l ↦ (pick_of_row r, rw l at (pick_row_next r s p u e), later_irrefl r.key.hour)
    | inr l ↦ (p, rw l at (pick_row_next r s p u e), l)
  ]
]

pick_row-Bounds_same :
    (h : Option ℕ) (r : ColumnLoad) (s : Loads)
    → is_shadowed r.key.column ≡ false
    → Bounds r.key.column h s
    → Bounds r.key.column h (pick_row r s)
pick_row-Bounds_same h r s u (p, f, g) = elim (Bool-cases (later r.key.hour p.hour)) [
  | inl l ↦ (
    pick_of_row r,
    rw l at (pick_row_next r s p u f),
    later_trans h p.hour r.key.hour g (later_asym r.key.hour p.hour l),
  )
  | inr l ↦ (p, rw l at (pick_row_next r s p u f), g)
]

pick_row-Bounds :
    (c : Text) (h : Option ℕ) (r : ColumnLoad) (s : Loads)
    → is_shadowed c ≡ false
    → Bounds c h s
    → Bounds c h (pick_row r s)
pick_row-Bounds c h r s u b = elim (Bool-cases (text_eq r.key.column c)) [
  | inl e ↦
      let same = text_eq_sound r.key.column c e in
      subst (λ (x : Text). Bounds x h (pick_row r s)) same
        (pick_row-Bounds_same h r s (subst (λ (x : Text). is_shadowed x ≡ false) (sym same) u)
          (subst (λ (x : Text). Bounds x h s) (sym same) b))
  | inr e ↦ let (p, f, g) = b in (p, pick_row_other c r s e ∙ f, g)
]

pick_all-Bounds :
    (c : Text) (h : Option ℕ) (rs : List ColumnLoad) (s : Loads)
    → is_shadowed c ≡ false
    → Bounds c h s
    → Bounds c h (pick_all rs s)
unfolding pick_all
pick_all-Bounds c h [] s u b = b
pick_all-Bounds c h (r ∷ rs) s u b =
    pick_all-Bounds c h rs (pick_row r s) u (pick_row-Bounds c h r s u b)

pick_all-own :
    (rs : List ColumnLoad) (s : Loads) (r : ColumnLoad)
    → is_shadowed r.key.column ≡ false
    → Listed r rs
    → Bounds r.key.column r.key.hour (pick_all rs s)
unfolding pick_all
pick_all-own [] s r u l = elim l [ ]
pick_all-own (x ∷ rs) s r u here =
    pick_all-Bounds r.key.column r.key.hour rs (pick_row r s) u (pick_row-own r s u)
pick_all-own (x ∷ rs) s r u (there l) = pick_all-own rs (pick_row x s) r u l

-- A column of which a row is selected has an entry, and the row's hour is not later than that of
-- the entry; a row with no hour comes before those with one. The column is none of the names that
-- an object has or can be given without an entry: `load_id`, `hour`, and the members of
-- `Object.prototype`.
pub pick_all_latest :
    (rs : List ColumnLoad) (r : ColumnLoad)
    → is_shadowed r.key.column ≡ false
    → Listed r rs
    → (p : Pick) × (pick_of r.key.column (pick_all rs no_loads).own ≡ some p)
      × (later r.key.hour p.hour ≡ false)
pick_all_latest rs r u l = pick_all-own rs no_loads r u l

-- A row gives the entry of its column or leaves it.
store_row-cases :
    (c : Text) (r : ColumnLoad) (s : Loads)
    → (pick_of c (store_row r s).own ≡ pick_of c s.own)
      ⊎ ((text_eq r.key.column c ≡ true) × (pick_of c (store_row r s).own ≡ some (pick_of_row r)))
store_row-cases c r s =
    elim (Bool-cases (text_eq r.key.column c && not (text_eq c (codes "__proto__")))) [
      | inl e ↦ inr (ground (arith, e), rw e at (pick_of-store_row c r s))
      | inr e ↦ inl (rw e at (pick_of-store_row c r s))
    ]

pick_row-cases :
    (c : Text) (r : ColumnLoad) (s : Loads)
    → (pick_of c (pick_row r s).own ≡ pick_of c s.own)
      ⊎ ((text_eq r.key.column c ≡ true) × (pick_of c (pick_row r s).own ≡ some (pick_of_row r)))
unfolding pick_row
pick_row-cases c r s = elim (Option-cases (entry_hour r.key.column s)) [
  | inl e ↦ rw (e, pick_row) (store_row-cases c r s)
  | inr (h, e) ↦ elim (Bool-cases (later r.key.hour h)) [
    | inl l ↦ rw (e, pick_row, l) (store_row-cases c r s)
    | inr l ↦ rw (e, pick_row, l) (inl refl)
  ]
]

some_injective : {x y : Pick} → some x ≡ some y → x ≡ y
some_injective h = cc

-- Every entry is that of a row that is selected.
entry_origin :
    (c : Text) (rs : List ColumnLoad) (s : Loads) (p : Pick)
    → pick_of c (pick_all rs s).own ≡ some p
    → (pick_of c s.own ≡ some p)
      ⊎ ((r : ColumnLoad) × Listed r rs × (text_eq r.key.column c ≡ true) × (p ≡ pick_of_row r))
unfolding pick_all
entry_origin c [] s p h = inl h
entry_origin c (r ∷ rs) s p h = elim (entry_origin c rs (pick_row r s) p h) [
  | inl f ↦ elim (pick_row-cases c r s) [
    | inl e ↦ inl (sym e ∙ f)
    | inr (q, e) ↦ inr (r, here, q, some_injective (sym f ∙ e))
  ]
  | inr (x, l, e, q) ↦ inr (x, there l, e, q)
]

-- The entry of a column is that of a selected row of the column.
pub pick_all_origin :
    (c : Text) (rs : List ColumnLoad) (p : Pick)
    → pick_of c (pick_all rs no_loads).own ≡ some p
    → (r : ColumnLoad) × Listed r rs × (text_eq r.key.column c ≡ true) × (p ≡ pick_of_row r)
unfolding pick_of
pick_all_origin c rs p h = elim (entry_origin c rs no_loads p h) [ inl f ↦ cc | inr x ↦ x ]
