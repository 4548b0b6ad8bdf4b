-- ===== src/Expression/Checker/Columns.antt =====
-- The columns in scope, their index by lower-case name, and the resolution of a reference
-- (packages/lattik-expression/src/checker/check.ts, `constructor` and `resolveColumn`).
use lattik_studio.Prelude.{
  Bool, true, Option, none, some, List, [], ◌∷◌, ◌++◌, Text, text_eq, ◌≡◌, refl, arith,
  if◌then◌else◌, text_eq_sound, append_assoc, append-nil, sym, ap, subst, ◌&&◌, Option-cases, inl,
  inr, ◌∙◌,
}
use lattik_studio.Expression.DataTypes.{DataType, to_lower}
use lattik_studio.Expression.Checker.Functions.{FunctionSignature}

pub record ColumnInfo : Type 0 where
  pub name : Text
  pub data_type : DataType
  pub table : Option Text

pub record SchemaContext : Type 0 where
  pub columns : List ColumnInfo
  pub functions : List FunctionSignature

-- `columnIndex`: the columns of each lower-case name, in the order of the schema.
abbrev pub ColumnIndex : Type 0
ColumnIndex = List (Text × List ColumnInfo)

-- One round of the constructor's loop.
unfoldable pub index_column : ColumnInfo → ColumnIndex → ColumnIndex
index_column c [] = (to_lower c.name, c ∷ []) ∷ []
index_column c ((k, cs) ∷ m) =
    if text_eq k (to_lower c.name) then (k, cs ++ c ∷ []) ∷ m else (k, cs) ∷ index_column c m

unfoldable pub index_from : ColumnIndex → List ColumnInfo → ColumnIndex
unfolding index_column
index_from m [] = m
index_from m (c ∷ cs) = index_from (index_column c m) cs

unfoldable pub column_index : List ColumnInfo → ColumnIndex
unfolding index_from
column_index cs = index_from [] cs

-- `columnIndex.get(key)`; a key that is not there has no columns.
unfoldable pub index_get : Text → ColumnIndex → List ColumnInfo
index_get k [] = []
index_get k ((j, cs) ∷ m) = if text_eq j k then cs else index_get k m

-- A table name that is present and not empty.
abbrev pub named : Option Text → Option Text
named none = none
named (some []) = none
named (some (c ∷ cs)) = some (c ∷ cs)

-- `!c.table || c.table === table`.
abbrev pub in_table : Text → ColumnInfo → Bool
in_table table c = elim (named c.table) [ none ↦ true | some t ↦ text_eq t table ]

unfoldable pub keep_table : Text → List ColumnInfo → List ColumnInfo
keep_table table [] = []
keep_table table (c ∷ cs) =
    if in_table table c then c ∷ keep_table table cs else keep_table table cs

unfoldable pub matching : SchemaContext → Option Text → Text → List ColumnInfo
unfolding column_index index_get keep_table
matching s table column =
    let candidates = index_get (to_lower column) (column_index s.columns) in
    elim (named table) [ none ↦ candidates | some t ↦ keep_table t candidates ]

-- The columns of a name, read off the schema with no index.
unfoldable pub columns_named : Text → List ColumnInfo → List ColumnInfo
columns_named k [] = []
columns_named k (c ∷ cs) =
    if text_eq (to_lower c.name) k then c ∷ columns_named k cs else columns_named k cs

text_eq_join : (a b c : Text) → text_eq a c ≡ true → text_eq b c ≡ true → text_eq a b ≡ true
text_eq_join a b c h g = subst (λ (t : Text). text_eq a t ≡ true) (sym (text_eq_sound b c g)) h

text_eq_same : (a b c : Text) → text_eq a b ≡ true → text_eq a c ≡ text_eq b c
text_eq_same a b c h = ap (λ (t : Text). text_eq t c) (text_eq_sound a b h)

index_get-index_column :
    (k : Text) (c : ColumnInfo) (m : ColumnIndex)
    → index_get k (index_column c m) ≡ index_get k m ++ columns_named k (c ∷ [])
unfolding index_get index_column columns_named
index_get-index_column k c [] = refl
index_get-index_column k c ((j, cs) ∷ m) = ground (
  arith,
  index_get-index_column k c m,
  text_eq_join j (to_lower c.name) k,
  text_eq_same j (to_lower c.name) k,
  append-nil cs,
  append-nil (index_get k m),
)

columns_named-append :
    (k : Text) (c : ColumnInfo) (cs : List ColumnInfo)
    → columns_named k (c ∷ cs) ≡ columns_named k (c ∷ []) ++ columns_named k cs
unfolding columns_named
columns_named-append k c cs = ground arith

index_get-index_from :
    (k : Text) (m : ColumnIndex) (cs : List ColumnInfo)
    → index_get k (index_from m cs) ≡ index_get k m ++ columns_named k cs
unfolding index_from columns_named
index_get-index_from k m [] = sym (append-nil (index_get k m))
index_get-index_from k m (c ∷ cs) =
    simp (index_get-index_from k (index_column c m) cs, index_get-index_column k c m, append_assoc)
      (ap (λ (r : List ColumnInfo). index_get k m ++ r) (sym (columns_named-append k c cs)))

-- The index gives, for every key, the columns whose lower-case name it is, in the order of the
-- schema.
pub column_index_lem :
    (k : Text) (cs : List ColumnInfo) → index_get k (column_index cs) ≡ columns_named k cs
unfolding column_index index_get
column_index_lem k cs = index_get-index_from k [] cs

-- A reference means a column: the names agree up to case, and the tables if both are given.
abbrev pub means : Option Text → Text → ColumnInfo → Bool
means table column c =
    text_eq (to_lower c.name) (to_lower column)
    && elim (named table) [ none ↦ true | some t ↦ in_table t c ]

-- The columns that a reference means, read off the schema.
unfoldable pub meant : Option Text → Text → List ColumnInfo → List ColumnInfo
meant table column [] = []
meant table column (c ∷ cs) =
    if means table column c then c ∷ meant table column cs else meant table column cs

columns_named-meant :
    (table : Option Text) (column : Text) (cs : List ColumnInfo)
    → named table ≡ none
    → columns_named (to_lower column) cs ≡ meant table column cs
unfolding columns_named meant
columns_named-meant table column [] e = refl
columns_named-meant table column (c ∷ cs) e =
    ground (arith, e, columns_named-meant table column cs e)

keep_table-meant :
    (table : Option Text) (t column : Text) (cs : List ColumnInfo)
    → named table ≡ some t
    → keep_table t (columns_named (to_lower column) cs) ≡ meant table column cs
unfolding keep_table columns_named meant
keep_table-meant table t column [] e = refl
keep_table-meant table t column (c ∷ cs) e = ground (arith, e, keep_table-meant table t column cs e)

-- The columns that a reference is resolved against are those of the schema that it means, in the
-- order of the schema.
pub matching_lem :
    (s : SchemaContext) (table : Option Text) (column : Text)
    → matching s table column ≡ meant table column s.columns
unfolding matching
matching_lem s table column = elim (Option-cases (named table)) [
  | inl e ↦
      rw (e, matching)
        (column_index_lem (to_lower column) s.columns
          ∙ columns_named-meant table column s.columns e)
  | inr (t, e) ↦
      rw (e, matching)
        (ap (keep_table t) (column_index_lem (to_lower column) s.columns)
          ∙ keep_table-meant table t column s.columns e)
]
