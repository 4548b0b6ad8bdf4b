-- ===== src/TableCommit/Outcome.antt =====
-- What a call of `POST` answers and does to the database, on every branch
-- (apps/web/src/app/api/lattik/commit/route.ts).
use lattik_studio.Prelude.{
  ℕ, ◌+◌, ◌≤◌, ◌≡◌, ◌⊎◌, true, false, ◌&&◌, Option, none, some, ◌∷◌, Text, text_eq, ◌==◌,
  if◌then◌else◌, All,
}
use lattik_studio.TableCommit.Store.{
  Commit, ColumnLoad, LoadKey, Database, ManifestName, hour_eq, load_of,
}
use lattik_studio.TableCommit.Commit.{
  Request, Reply, committed, replayed, conflict, base_unreadable, Reading, read_failed,
}
use lattik_studio.TableCommit.Rows.{given}
use lattik_studio.TableCommit.Replies.{Stored}

-- The load that a request gives the key of a row: that of its column, for its own table, day and
-- hour.
abbrev pub given_key : Request → LoadKey → Option Text
given_key r q =
    if text_eq r.table q.table && (text_eq r.ds q.ds && hour_eq r.hour q.hour)
    then given q.column r.columns
    else none

-- The row of a key behind the request's transaction.
abbrev pub row_behind : Request → ℕ → LoadKey → Option Text → Option ColumnLoad → Option ColumnLoad
row_behind r now q none before = before
row_behind r now q (some l) before =
    some (record { key = q; load_id = l; version = r.base_version + 1; committed_at = now })

-- The commit is in front of those that were there, and each key has its row.
abbrev pub Written : Request → ℕ → Database → Database → Type 0
Written r now d d' =
    (d'.commits
      ≡ (record {
        table = r.table;
        version = r.base_version + 1;
        load_id = r.load_id;
        committed_at = now;
      })
        ∷ d.commits)
    × ((q : LoadKey) → load_of q d'.loads ≡ row_behind r now q (given_key r q) (load_of q d.loads))

-- A stored commit of the request's table.
abbrev pub OfTable : Request → Database → Commit → Type 0
OfTable r d c = Stored c d.commits × (text_eq c.table r.table ≡ true)

-- The reply of a call that changes nothing: its load was committed before; or the manifest of the
-- base cannot be read; or the version after the base is taken, and the table's latest is named.
abbrev pub Refused : Request → (ManifestName → Reading) → Database → Reply → Type 0
Refused r read d reply =
    ((c : Commit) × OfTable r d c
      × (c.load_id ≡ r.load_id)
      × (reply ≡ replayed c.version c.load_id))
    ⊎ ((c : Commit) × OfTable r d c
        × (c.version ≡ r.base_version)
        × (read (record { table = r.table; version = r.base_version; load_id = c.load_id })
            ≡ read_failed)
        × (reply ≡ base_unreadable))
    ⊎ ((c : Commit) × OfTable r d c
        × (c.version ≡ r.base_version + 1)
        × ((m : Commit) × OfTable r d m
            × (r.base_version + 1 ≤ m.version)
            × (reply ≡ conflict m.version (some m.load_id))))

-- No commit of the table has the version after the base.
abbrev pub Free : Request → Database → Type 0
Free r d =
    All (λ c. (text_eq c.table r.table && (c.version == r.base_version + 1)) ≡ false) d.commits

abbrev pub Outcome : Request → (ManifestName → Reading) → ℕ → Database → Reply × Database → Type 0
Outcome r read now d x =
    ((x.1 ≡ d) × Refused r read d x.0)
    ⊎ (Free r d × (x.0 ≡ committed (r.base_version + 1) r.load_id) × Written r now d x.1)
