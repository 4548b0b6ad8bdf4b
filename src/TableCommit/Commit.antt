-- ===== src/TableCommit/Commit.antt =====
-- The handlers of apps/web/src/app/api/lattik/commit/route.ts behind the validation of the body:
-- `POST`, in the parts that other writers can run between, and `GET` with mode=latest.
use lattik_studio.Prelude.{ℕ, ◌+◌, Option, none, some, List, [], ◌∷◌, Text, text_eq, if◌then◌else◌}
use lattik_studio.TableCommit.Store.{
  Commit, ColumnLoad, LoadKey, Database, Columns, ManifestName, has_version, has_load, find_commit,
  latest, upsert,
}

-- `parsed.data`.
pub record Request : Type 0 where
  pub table : Text
  pub base_version : ℕ
  pub load_id : Text
  pub columns : Columns
  pub ds : Text
  pub hour : Option ℕ

-- The bodies of the responses.
pub data Reply : Type 0 where
  committed : ℕ → Text → Reply
  replayed : ℕ → Text → Reply
  conflict : ℕ → Option Text → Reply
  base_unreadable : Reply

-- What reading the base manifest gives: any error but a missing object is thrown.
pub data Reading : Type 0 where
  manifest_read : Option Columns → Reading
  read_failed : Reading

-- What the lookups decide: a reply, or the columns of the new manifest.
pub data Plan : Type 0 where
  answer_with : Reply → Plan
  proceed : Columns → Plan

unfoldable pub column_of : Text → Columns → Option Text
column_of k [] = none
column_of k ((c, l) ∷ cs) = if text_eq c k then some l else column_of k cs

unfoldable pub set_column : Text → Text → Columns → Columns
set_column k v [] = (k, v) ∷ []
set_column k v ((c, l) ∷ cs) = if text_eq c k then (c, v) ∷ cs else (c, l) ∷ set_column k v cs

-- `{ ...base, ...columns }`.
unfoldable pub spread : Columns → Columns → Columns
unfolding set_column
spread base [] = base
spread base ((c, l) ∷ cs) = spread (set_column c l base) cs

abbrev or_empty : Option Columns → Columns
or_empty none = []
or_empty (some cs) = cs

abbrev pub plan_reading : Request → Reading → Plan
plan_reading r read_failed = answer_with base_unreadable
plan_reading r (manifest_read o) = proceed (spread (or_empty o) r.columns)

abbrev pub plan_base : Request → (ManifestName → Reading) → Option Commit → Plan
plan_base r read none = proceed (spread [] r.columns)
plan_base r read (some c) =
    plan_reading r
      (read (record { table = r.table; version = r.base_version; load_id = c.load_id }))

abbrev pub plan_existing : Request → (ManifestName → Reading) → Option Commit → Option Commit → Plan
plan_existing r read (some c) base = answer_with (replayed c.version c.load_id)
plan_existing r read none base = plan_base r read base

-- The two lookups and the reading of the base manifest.
unfoldable pub plan : Request → (ManifestName → Reading) → Database → Plan
unfolding find_commit spread
plan r read d =
    plan_existing r read (find_commit (has_load r.table r.load_id) d.commits)
      (find_commit (has_version r.table r.base_version) d.commits)

-- The name of the new manifest.
abbrev pub new_name : Request → ManifestName
new_name r = record { table = r.table; version = r.base_version + 1; load_id = r.load_id }

abbrev pub new_commit : Request → ℕ → Commit
new_commit r now = record {
  table = r.table;
  version = r.base_version + 1;
  load_id = r.load_id;
  committed_at = now;
}

abbrev pub key_in : Request → Text → LoadKey
key_in r column = record { table = r.table; column = column; ds = r.ds; hour = r.hour }

-- `columnRows`.
abbrev pub row_in : Request → ℕ → Text → Text → ColumnLoad
row_in r now c l = record {
  key = key_in r c;
  load_id = l;
  version = r.base_version + 1;
  committed_at = now;
}

unfoldable pub upsert_all : Request → ℕ → Columns → List ColumnLoad → List ColumnLoad
unfolding upsert
upsert_all r now [] xs = xs
upsert_all r now ((c, l) ∷ cs) xs = upsert_all r now cs (upsert (row_in r now c l) xs)

-- Both statements of the transaction.
abbrev pub inserted : Request → ℕ → Database → Database
inserted r now d = record {
  commits = new_commit r now ∷ d.commits;
  loads = upsert_all r now r.columns d.loads;
}

abbrev pub insert_if_free : Request → ℕ → Database → Option Commit → Option Database
insert_if_free r now d (some c) = none
insert_if_free r now d none = some (inserted r now d)

-- The transaction: nothing is changed if the primary key is taken.
unfoldable pub transact : Request → ℕ → Database → Option Database
unfolding find_commit upsert_all
transact r now d =
    insert_if_free r now d (find_commit (has_version r.table (r.base_version + 1)) d.commits)

abbrev pub conflict_with : Request → Option Commit → Reply
conflict_with r none = conflict r.base_version none
conflict_with r (some c) = conflict c.version (some c.load_id)

abbrev pub settle_on : Request → Database → Option Database → Reply × Database
settle_on r d none = (conflict_with r (latest r.table d.commits), d)
settle_on r d (some d') = (committed (r.base_version + 1) r.load_id, d')

-- The transaction and its reply.
unfoldable pub settle : Request → ℕ → Database → Reply × Database
unfolding transact latest
settle r now d = settle_on r d (transact r now d)

abbrev pub follow : Request → ℕ → Database → Plan → Reply × Database
follow r now d (answer_with reply) = (reply, d)
follow r now d (proceed cs) = settle r now d

-- `POST` with no other writer between its parts.
unfoldable pub post : Request → (ManifestName → Reading) → ℕ → Database → Reply × Database
unfolding plan settle
post r read now d = follow r now d (plan r read d)
