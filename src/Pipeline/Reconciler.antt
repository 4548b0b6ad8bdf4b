-- ===== src/Pipeline/Reconciler.antt =====
-- The reconciler of pipelines: apps/web/src/lib/dag-reconciler.ts.
pub mod Laws
pub mod Kept
pub mod Steps
pub mod Promise
mod Examples
use lattik_studio.Prelude.{
  ℕ, suc, Bool, true, false, not, ◌&&◌, ◌||◌, Option, none, some, List, [], ◌∷◌, ◌++◌, Text, codes,
  text_eq, mem_text, take, if◌then◌else◌,
}
use lattik_studio.Pipeline.Runs.{DagRow, ParsedDag}

-- An entry of `manifest.json`.
pub record Entry : Type 0 where
  pub path : Text
  pub sha256 : Text

-- `branch.replace(/^pr-/, "")`.
abbrev pub pr_number : Text → Text
pr_number [] = []
pr_number (a ∷ []) = a ∷ []
pr_number (a ∷ b ∷ []) = a ∷ b ∷ []
pr_number (a ∷ b ∷ c ∷ rest) =
    if text_eq (a ∷ b ∷ c ∷ []) (codes "pr-") then rest else a ∷ b ∷ c ∷ rest

unfoldable pub dag_row_id : Text → Text → Text
dag_row_id id branch =
    if text_eq branch (codes "prod") then id else id ++ (codes "_pr_" ++ pr_number branch)

-- `existingBySourcePath`: of two rows of a path, the later.
unfoldable pub existing_of : Text → Text → List DagRow → Option DagRow → Option DagRow
existing_of branch path [] o = o
existing_of branch path (d ∷ ds) o =
    existing_of branch path ds
      (if text_eq d.branch branch && text_eq d.source_path path then some d else o)

abbrev pub is_archived : DagRow → Bool
is_archived d = has_date d.archived_at
  where
    has_date : Option ℕ → Bool
    has_date none = false
    has_date (some t) = true

-- The row of an entry that needs no write.
abbrev pub unchanged_row : Entry → Option DagRow → Option DagRow
unchanged_row e none = none
unchanged_row e (some d) =
    if text_eq d.yaml_hash e.sha256 && not (is_archived d) then some d else none

abbrev pub new_row : Text → Entry → ParsedDag → DagRow
new_row branch e p = record {
  id = dag_row_id p.id branch;
  branch = branch;
  source_path = e.path;
  yaml_hash = e.sha256;
  parsed = p;
  schedule = p.schedule;
  timezone = p.timezone;
  start_date = take 10 p.start_date;
  catchup = p.catchup;
  max_active_runs = p.max_active_runs;
  enabled = false;
  archived_at = none;
  last_enqueued = none;
}

-- The update on a conflict: `enabled` and the bookmark stay.
abbrev pub refresh_row : DagRow → DagRow → DagRow
refresh_row new d = record d {
  source_path = new.source_path;
  yaml_hash = new.yaml_hash;
  parsed = new.parsed;
  schedule = new.schedule;
  timezone = new.timezone;
  start_date = new.start_date;
  catchup = new.catchup;
  max_active_runs = new.max_active_runs;
  archived_at = none;
}

unfoldable pub upsert_dag : DagRow → List DagRow → List DagRow
upsert_dag new [] = new ∷ []
upsert_dag new (d ∷ ds) =
    if text_eq d.id new.id && text_eq d.branch new.branch
    then refresh_row new d ∷ ds
    else d ∷ upsert_dag new ds

-- The state of the loop over the manifest.
pub record Progress : Type 0 where
  pub rows : List DagRow
  pub seen : List Text
  pub processed : ℕ
  pub unchanged : ℕ
  pub errors : List Text

-- An entry that is fetched and parsed, or cannot be.
abbrev pub write_entry : Text → Entry → Option ParsedDag → Progress → Progress
write_entry branch e none s = record s { errors = s.errors ++ e.path ∷ [] }
write_entry branch e (some p) s =
    let new = new_row branch e p in
    record s {
      rows = upsert_dag new s.rows;
      seen = s.seen ++ new.id ∷ [];
      processed = suc s.processed;
    }

abbrev pub take_entry : Text → Entry → Option DagRow → Option ParsedDag → Progress → Progress
take_entry branch e (some d) p s = record s {
  seen = s.seen ++ d.id ∷ [];
  unchanged = suc s.unchanged;
}
take_entry branch e none p s = write_entry branch e p s

-- The loop; `load` fetches and parses the text at a path.
unfoldable pub take_entries :
    (Text → Option ParsedDag) → Text → List DagRow → List Entry → Progress → Progress
unfolding dag_row_id existing_of upsert_dag
take_entries load branch before [] s = s
take_entries load branch before (e ∷ es) s =
    take_entries load branch before es (
      take_entry branch e (unchanged_row e (existing_of branch e.path before none)) (load e.path) s)

-- `update dag set archived_at` on the active rows of a branch that a test selects, with how many.
unfoldable pub archive_rows : ℕ → Text → (DagRow → Bool) → List DagRow → List DagRow × ℕ
archive_rows now branch test [] = ([], 0)
archive_rows now branch test (d ∷ ds) =
    let rest = archive_rows now branch test ds in
    if text_eq d.branch branch && (not (is_archived d) && test d)
    then (record d { archived_at = some now } ∷ rest.0, suc rest.1)
    else (d ∷ rest.0, rest.1)

-- `archiveBranch`.
abbrev pub archive_branch : ℕ → Text → List DagRow → List DagRow × ℕ
archive_branch now branch = archive_rows now branch (λ d. true)

-- `notInArray(id, seenIds)` if there are any.
abbrev pub archive_unseen : ℕ → Text → List Text → List DagRow → List DagRow × ℕ
archive_unseen now branch [] rows = archive_branch now branch rows
archive_unseen now branch (x ∷ xs) rows =
    archive_rows now branch (λ d. not (mem_text d.id (x ∷ xs))) rows

pub record ReconcileResult : Type 0 where
  pub dags_processed : ℕ
  pub dags_unchanged : ℕ
  pub dags_archived : ℕ
  pub errors : List Text

abbrev pub at_start : List DagRow → Progress
at_start rows = record { rows = rows; seen = []; processed = 0; unchanged = 0; errors = [] }

-- `reconcileDags` on a manifest, or the error of a missing one.
unfoldable pub reconcile_dags :
    (Text → Option ParsedDag)
    → ℕ
    → Text
    → Option (List Entry)
    → List DagRow
    → Option (ReconcileResult × List DagRow)
unfolding take_entries archive_rows
reconcile_dags load now branch none rows = none
reconcile_dags load now branch (some entries) rows =
    let s = take_entries load branch rows entries (at_start rows) in
    let archived = archive_unseen now branch s.seen s.rows in
    some (
      record {
        dags_processed = s.processed;
        dags_unchanged = s.unchanged;
        dags_archived = archived.1;
        errors = s.errors;
      },
      archived.0,
    )
