-- ===== src/Pipeline/Reconciler/Examples.antt =====
-- A manifest with an entry that cannot be parsed, and an application of the theorem to it.
use lattik_studio.Prelude.{
  ◌+◌, ◌≡◌, refl, true, Option, none, some, List, [], ◌∷◌, Text, codes, text_eq, mem_text, length,
  All, Member, here,
}
use lattik_studio.Pipeline.Runs.{DagRow, ParsedDag}
use lattik_studio.Pipeline.Reconciler.{Entry, reconcile_dags, ReconcileResult, dag_row_id}
use lattik_studio.Pipeline.Reconciler.Laws.{other_rows}
use lattik_studio.Pipeline.Reconciler.Steps.{IdOf}
use lattik_studio.Pipeline.Reconciler.Promise.{
  KeptOrFailed, reconcile_dags_keeps, reconcile_dags_archives,
}

abbrev parsed_as : Text → ParsedDag
parsed_as id = record {
  id = id;
  schedule = codes "s";
  timezone = codes "UTC";
  start_date = codes "2026-01-01T00:00:00Z";
  catchup = true;
  max_active_runs = 3;
}

abbrev row : Text → Text → Text → DagRow
row id path hash = record {
  id = id;
  branch = codes "prod";
  source_path = path;
  yaml_hash = hash;
  parsed = parsed_as id;
  schedule = codes "s";
  timezone = codes "UTC";
  start_date = codes "2026-01-01";
  catchup = true;
  max_active_runs = 3;
  enabled = true;
  archived_at = none;
  last_enqueued = none;
}

abbrev stored : List DagRow
stored =
    row (codes "a") (codes "a.yaml") (codes "1") ∷ row (codes "b") (codes "b.yaml") (codes "1") ∷ []

-- The entry of `a` is as stored, that of `b` has changed.
abbrev manifest : List Entry
manifest =
    (record { path = codes "a.yaml"; sha256 = codes "1" })
    ∷ (record { path = codes "b.yaml"; sha256 = codes "2" })
    ∷ []

abbrev broken : Text → Option ParsedDag
broken path = none

abbrev counted : ReconcileResult
counted = record {
  dags_processed = 0;
  dags_unchanged = 1;
  dags_archived = 1;
  errors = codes "b.yaml" ∷ [];
}

abbrev left : List DagRow
left =
    row (codes "a") (codes "a.yaml") (codes "1")
    ∷ record (row (codes "b") (codes "b.yaml") (codes "1")) { archived_at = some 9 }
    ∷ []

-- The row of the entry that cannot be parsed is archived.
broken_archived :
    reconcile_dags broken 9 (codes "prod") (some manifest) stored ≡ some (counted, left)
unfolding reconcile_dags text_eq mem_text
broken_archived = refl

pr_id : dag_row_id (codes "a") (codes "pr-42") ≡ codes "a_pr_42"
unfolding dag_row_id text_eq
pr_id = refl

reconcile_dags_keeps_example :
    All (KeptOrFailed broken (codes "prod") stored left) manifest
    × (other_rows (codes "prod") left ≡ other_rows (codes "prod") stored)
    × (0 + 1 + 1 ≡ length manifest)
reconcile_dags_keeps_example =
    reconcile_dags_keeps broken 9 (codes "prod") manifest stored left counted broken_archived

-- Behind the deletion of `b` from the manifest.
abbrev shorter : List Entry
shorter = (record { path = codes "a.yaml"; sha256 = codes "1" }) ∷ []

abbrev shorter_counted : ReconcileResult
shorter_counted = record counted { errors = [] }

b_archived :
    reconcile_dags broken 9 (codes "prod") (some shorter) stored ≡ some (shorter_counted, left)
unfolding reconcile_dags text_eq mem_text
b_archived = refl

reconcile_dags_archives_example :
    (e : Entry) × Member e shorter × IdOf broken (codes "prod") stored e (codes "a")
unfolding text_eq
reconcile_dags_archives_example =
    reconcile_dags_archives broken 9 (codes "prod") shorter stored left shorter_counted
      (row (codes "a") (codes "a.yaml") (codes "1")) b_archived refl here refl refl
