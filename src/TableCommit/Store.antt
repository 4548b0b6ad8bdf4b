-- ===== src/TableCommit/Store.antt =====
-- The rows of the two tables of the database and the manifests in the object store
-- (packages/db-schema/src/index.ts, `lattikTableCommits` and `lattikColumnLoads`), with the queries
-- that apps/web/src/app/api/lattik/commit/route.ts makes.
use lattik_studio.Prelude.{
  ℕ, Bool, true, false, Option, none, some, List, [], ◌∷◌, Text, text_eq, ◌==◌, ltb, if◌then◌else◌,
  ◌&&◌,
}

-- A row of `lattik_table_commit`.
pub record Commit : Type 0 where
  pub table : Text
  pub version : ℕ
  pub load_id : Text
  pub committed_at : ℕ

-- The unique key of `lattik_column_load`: an hour that is NULL equals another.
pub record LoadKey : Type 0 where
  pub table : Text
  pub column : Text
  pub ds : Text
  pub hour : Option ℕ

-- A row of `lattik_column_load`.
pub record ColumnLoad : Type 0 where
  pub key : LoadKey
  pub load_id : Text
  pub version : ℕ
  pub committed_at : ℕ

pub record Database : Type 0 where
  pub commits : List Commit
  pub loads : List ColumnLoad

-- A record of strings, its keys in the order of insertion.
abbrev pub Columns : Type 0
Columns = List (Text × Text)

-- The name of a manifest: its table, its version and the load that wrote it.
pub record ManifestName : Type 0 where
  pub table : Text
  pub version : ℕ
  pub load_id : Text

-- The manifests that were put, the newest first.
abbrev pub Manifests : Type 0
Manifests = List (ManifestName × Columns)

abbrev pub has_version : Text → ℕ → Commit → Bool
has_version table v c = text_eq c.table table && (c.version == v)

abbrev pub has_load : Text → Text → Commit → Bool
has_load table l c = text_eq c.table table && text_eq c.load_id l

-- `select().where(test).limit(1)`.
unfoldable pub find_commit : (Commit → Bool) → List Commit → Option Commit
find_commit test [] = none
find_commit test (c ∷ cs) = if test c then some c else find_commit test cs

abbrev pub newer : Commit → Option Commit → Commit
newer c none = c
newer c (some d) = if ltb c.version d.version then d else c

-- `select().where(tableName).orderBy(desc(manifestVersion)).limit(1)`.
unfoldable pub latest : Text → List Commit → Option Commit
latest table [] = none
latest table (c ∷ cs) =
    if text_eq c.table table then some (newer c (latest table cs)) else latest table cs

abbrev pub hour_eq : Option ℕ → Option ℕ → Bool
hour_eq none none = true
hour_eq none (some b) = false
hour_eq (some a) none = false
hour_eq (some a) (some b) = a == b

unfoldable pub key_eq : LoadKey → LoadKey → Bool
key_eq a b =
    text_eq a.table b.table
    && (text_eq a.column b.column && (text_eq a.ds b.ds && hour_eq a.hour b.hour))

-- `insert ... on conflict do update` of one row.
unfoldable pub upsert : ColumnLoad → List ColumnLoad → List ColumnLoad
upsert r [] = r ∷ []
upsert r (x ∷ xs) = if key_eq x.key r.key then r ∷ xs else x ∷ upsert r xs

-- The row of a key.
unfoldable pub load_of : LoadKey → List ColumnLoad → Option ColumnLoad
load_of k [] = none
load_of k (x ∷ xs) = if key_eq x.key k then some x else load_of k xs

abbrev name_eq : ManifestName → ManifestName → Bool
name_eq a b = text_eq a.table b.table && ((a.version == b.version) && text_eq a.load_id b.load_id)

-- `getJsonObject` on a name: the newest manifest that was put there.
unfoldable pub get_manifest : ManifestName → Manifests → Option Columns
get_manifest n [] = none
get_manifest n ((m, cs) ∷ ms) = if name_eq m n then some cs else get_manifest n ms
