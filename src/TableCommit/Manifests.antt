-- ===== src/TableCommit/Manifests.antt =====
-- The columns of the new manifest (apps/web/src/app/api/lattik/commit/route.ts, `POST`).
use lattik_studio.Prelude.{◌≡◌, ◌⊎◌, inl, inr, refl, none, some, [], Text}
use lattik_studio.TableCommit.Store.{
  Commit, Database, Columns, ManifestName, find_commit, has_version, has_load,
}
use lattik_studio.TableCommit.Commit.{
  Request, Reading, manifest_read, proceed, plan, plan_base, column_of, spread,
}
use lattik_studio.TableCommit.Rows.{given, or_before, column_of-spread}

-- What the new manifest starts from: no columns, if the base version has no commit or its commit no
-- manifest, and else the columns of the manifest.
abbrev pub BaseColumns : Request → (ManifestName → Reading) → Database → Columns → Type 0
BaseColumns r read d base =
    ((find_commit (has_version r.table r.base_version) d.commits ≡ none) × (base ≡ []))
    ⊎ ((c : Commit) × (find_commit (has_version r.table r.base_version) d.commits ≡ some c)
        × (((read (record { table = r.table; version = r.base_version; load_id = c.load_id })
                ≡ manifest_read none)
              × (base ≡ []))
            ⊎ (read (record { table = r.table; version = r.base_version; load_id = c.load_id })
                ≡ manifest_read (some base))))

module _ (r : Request) (read : ManifestName → Reading) (d : Database) where
  -- A manifest is planned that has, for each column, the load of the request, or else the base's.
  abbrev Planned : Columns → Type 0
  Planned base =
      (cs : Columns) × (plan r read d ≡ proceed cs)
      × ((k : Text) → column_of k cs ≡ or_before (given k r.columns) (column_of k base))

  proceed-Planned :
      (base : Columns) → plan r read d ≡ proceed (spread base r.columns) → Planned base
  proceed-Planned base h = (spread base r.columns, h, λ k. column_of-spread k base r.columns)

  plan-BaseColumns :
      (base : Columns)
      → find_commit (has_load r.table r.load_id) d.commits ≡ none
      → BaseColumns r read d base
      → plan r read d ≡ proceed (spread base r.columns)
  unfolding plan
  plan-BaseColumns base h (inl (e, b)) = rw (h, e, b) refl
  plan-BaseColumns base h (inr (c, e, inl (f, b))) = rw (h, e, plan_base, f, b) refl
  plan-BaseColumns base h (inr (c, e, inr f)) = rw (h, e, plan_base, f) refl

-- For a request whose load is not committed, with a base manifest that can be read, if there is one,
-- the request goes on to a new manifest, which gives each column the load of the request, or, where
-- the request does not name the column, the load of the base.
pub plan_columns :
    (r : Request) (read : ManifestName → Reading) (d : Database) (base : Columns)
    → find_commit (has_load r.table r.load_id) d.commits ≡ none
    → BaseColumns r read d base
    → (cs : Columns) × (plan r read d ≡ proceed cs)
      × ((k : Text) → column_of k cs ≡ or_before (given k r.columns) (column_of k base))
plan_columns r read d base h b = proceed-Planned r read d base (plan-BaseColumns r read d base h b)
