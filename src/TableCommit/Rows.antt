-- ===== src/TableCommit/Rows.antt =====
-- What the rows and the manifest hold behind a commit.
use lattik_studio.Prelude.{
  ℕ, ◌+◌, ◌≡◌, ◌⊎◌, sym, false, refl, ap, ◌∙◌, true, Option, none, some, List, [], ◌∷◌, Text,
  text_eq, text_eq_sound, text_eq_refl, arith, if◌then◌else◌, Bool-cases, Option-cases, inl, inr,
}
use lattik_studio.TableCommit.Store.{
  Commit, ColumnLoad, LoadKey, Database, Columns, find_commit, has_version, hour_eq, key_eq, upsert,
  load_of,
}
use lattik_studio.TableCommit.Commit.{
  Request, column_of, set_column, spread, key_in, row_in, upsert_all, transact, inserted,
  insert_if_free,
}

-- The load that a record gives a column; of two, the later.
unfoldable pub given : Text → Columns → Option Text
given k [] = none
given k ((c, l) ∷ cs) = elim (given k cs) [
  | none ↦ if text_eq c k then some l else none
  | some m ↦ some m
]

column_of-set_column :
    (k c l : Text) (base : Columns)
    → column_of k (set_column c l base) ≡ (if text_eq c k then some l else column_of k base)
unfolding column_of set_column
column_of-set_column k c l [] = refl
column_of-set_column k c l ((d, m) ∷ base) = ground (
  arith,
  column_of-set_column k c l base,
  text_eq_sound d c,
  text_eq_sound c k,
  text_eq_sound d k,
  text_eq_refl k,
)

abbrev pub or_before : Option Text → Option Text → Option Text
or_before none before = before
or_before (some l) before = some l

-- The new manifest has, for each column, the load of the request, or else that of the base.
pub column_of-spread :
    (k : Text) (base cs : Columns)
    → column_of k (spread base cs) ≡ or_before (given k cs) (column_of k base)
unfolding spread given
column_of-spread k base [] = refl
column_of-spread k base ((c, l) ∷ cs) =
    ground (arith, column_of-spread k (set_column c l base) cs, column_of-set_column k c l base)

hour_eq_sound : (a b : Option ℕ) → hour_eq a b ≡ true → a ≡ b
hour_eq_sound none none h = refl
hour_eq_sound none (some b) h = ground arith
hour_eq_sound (some a) none h = ground arith
hour_eq_sound (some a) (some b) h = ground arith

hour_eq_refl : (a : Option ℕ) → hour_eq a a ≡ true
hour_eq_refl none = refl
hour_eq_refl (some a) = ground arith

LoadKey-path :
    (a b : LoadKey)
    → a.table ≡ b.table
    → a.column ≡ b.column
    → a.ds ≡ b.ds
    → a.hour ≡ b.hour
    → a ≡ b
LoadKey-path a b p q r s = λ i. record { table = p i; column = q i; ds = r i; hour = s i }

pub key_eq_sound : (a b : LoadKey) → key_eq a b ≡ true → a ≡ b
unfolding key_eq
key_eq_sound a b h =
    LoadKey-path a b (text_eq_sound a.table b.table (ground arith))
      (text_eq_sound a.column b.column (ground arith)) (text_eq_sound a.ds b.ds (ground arith))
      (hour_eq_sound a.hour b.hour (ground arith))

pub key_eq_refl : (a : LoadKey) → key_eq a a ≡ true
unfolding key_eq
key_eq_refl a =
    ground
      (arith, text_eq_refl a.table, text_eq_refl a.column, text_eq_refl a.ds, hour_eq_refl a.hour)

key_eq_same : (a b k : LoadKey) → key_eq a b ≡ true → key_eq a k ≡ key_eq b k
key_eq_same a b k h = ap (λ (x : LoadKey). key_eq x k) (key_eq_sound a b h)

load_of-upsert :
    (k : LoadKey) (r : ColumnLoad) (xs : List ColumnLoad)
    → load_of k (upsert r xs) ≡ (if key_eq r.key k then some r else load_of k xs)
unfolding load_of upsert
load_of-upsert k r [] = refl
load_of-upsert k r (x ∷ xs) = elim (Bool-cases (key_eq x.key r.key)) [
  | inl e ↦ ground (arith, e, key_eq_same x.key r.key k e)
  | inr e ↦
      ground
        (arith, e, load_of-upsert k r xs, key_eq_sound x.key k, key_eq_sound r.key k, key_eq_refl k)
]

-- The row of a column behind the transaction.
abbrev pub row_or : Request → ℕ → Text → Option Text → Option ColumnLoad → Option ColumnLoad
row_or r now c none before = before
row_or r now c (some l) before = some (row_in r now c l)

key_in-eq : (r : Request) (c k : Text) → key_eq (key_in r c) (key_in r k) ≡ text_eq c k
unfolding key_eq
key_in-eq r c k = ground (arith, text_eq_refl r.table, text_eq_refl r.ds, hour_eq_refl r.hour)

pub load_of-upsert_all :
    (r : Request) (now : ℕ) (k : Text) (cs : Columns) (xs : List ColumnLoad)
    → load_of (key_in r k) (upsert_all r now cs xs)
      ≡ row_or r now k (given k cs) (load_of (key_in r k) xs)
unfolding upsert_all given
load_of-upsert_all r now k [] xs = refl
load_of-upsert_all r now k ((c, l) ∷ cs) xs = elim (Option-cases (given k cs)) [
  | inl e ↦ elim (Bool-cases (text_eq c k)) [
    | inl s ↦ ground (
      arith,
      e,
      s,
      load_of-upsert_all r now k cs (upsert (row_in r now c l) xs),
      load_of-upsert (key_in r k) (row_in r now c l) xs,
      key_in-eq r c k,
      ap (λ (x : Text). row_in r now x l) (text_eq_sound c k s),
    )
    | inr n ↦ ground (
      arith,
      e,
      n,
      load_of-upsert_all r now k cs (upsert (row_in r now c l) xs),
      load_of-upsert (key_in r k) (row_in r now c l) xs,
      key_in-eq r c k,
    )
  ]
  | inr (m, e) ↦ ground (arith, e, load_of-upsert_all r now k cs (upsert (row_in r now c l) xs))
]

insert_inv :
    (r : Request) (now : ℕ) (d d' : Database) (o : Option Commit)
    → insert_if_free r now d o ≡ some d'
    → (o ≡ none) × (d' ≡ inserted r now d)
insert_inv r now d d' none h = (refl, cc)
insert_inv r now d d' (some c) h = cc

-- A transaction succeeds only if no commit has its version, and does both its statements.
pub transact_inv :
    (r : Request) (now : ℕ) (d d' : Database)
    → transact r now d ≡ some d'
    → (find_commit (has_version r.table (r.base_version + 1)) d.commits ≡ none)
      × (d' ≡ inserted r now d)
unfolding transact
transact_inv r now d d' h = insert_inv r now d d' _ h

pub load_of-other_key :
    (r : Request) (now : ℕ) (q : LoadKey) (cs : Columns) (xs : List ColumnLoad)
    → key_eq (key_in r q.column) q ≡ false
    → load_of q (upsert_all r now cs xs) ≡ load_of q xs
unfolding upsert_all
load_of-other_key r now q [] xs h = refl
load_of-other_key r now q ((c, l) ∷ cs) xs h =
    load_of-other_key r now q cs (upsert (row_in r now c l) xs) h
    ∙ load_of-upsert q (row_in r now c l) xs
    ∙ rw (other (Bool-cases (key_eq (key_in r c) q))) refl
  where
    other :
        (key_eq (key_in r c) q ≡ true) ⊎ (key_eq (key_in r c) q ≡ false)
        → key_eq (key_in r c) q ≡ false
    other (inr n) = n
    other (inl y) = absurd (
        cc (
          h,
          sym (ap (λ (x : LoadKey). key_eq (key_in r x.column) x) (key_eq_sound (key_in r c) q y)),
          key_eq_refl (key_in r c),
        ))

-- A transaction that succeeds gives each column that the request names the row of its load, for
-- the day and hour of the request, and leaves the row of every other column as it was.
pub transact_loads :
    (r : Request) (now : ℕ) (d d' : Database) (k : Text)
    → transact r now d ≡ some d'
    → load_of (key_in r k) d'.loads
      ≡ row_or r now k (given k r.columns) (load_of (key_in r k) d.loads)
transact_loads r now d d' k h =
    ap (λ (x : Database). load_of (key_in r k) x.loads) (transact_inv r now d d' h).1
    ∙ load_of-upsert_all r now k r.columns d.loads
