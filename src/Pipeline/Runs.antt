-- ===== src/Pipeline/Runs.antt =====
-- The rows of `dag` and `dag_run` (packages/db-schema/src/index.ts, `dags` and `dagRuns`) and the
-- updates of a run's status by apps/web/src/workflows/dag-runner.ts.
use lattik_studio.Prelude.{
  ℕ, Bool, true, false, not, ◌&&◌, ◌||◌, Option, some, List, [], ◌∷◌, Text, text_eq, if◌then◌else◌,
}

pub data RunStatus : Type 0 where
  run_queued : RunStatus
  run_running : RunStatus
  run_succeeded : RunStatus
  run_failed : RunStatus
  run_cancelled : RunStatus

-- What the schema makes of the text of a pipeline. The start date is the text of an ISO date, with
-- a time or without.
pub record ParsedDag : Type 0 where
  pub id : Text
  pub schedule : Text
  pub timezone : Text
  pub start_date : Text
  pub catchup : Bool
  pub max_active_runs : ℕ

pub record DagRow : Type 0 where
  pub id : Text
  pub branch : Text
  pub source_path : Text
  pub yaml_hash : Text
  pub parsed : ParsedDag
  pub schedule : Text
  pub timezone : Text
  pub start_date : Text
  pub catchup : Bool
  pub max_active_runs : ℕ
  pub enabled : Bool
  pub archived_at : Option ℕ
  pub last_enqueued : Option ℕ

pub record DagRun : Type 0 where
  pub id : Text
  pub dag_id : Text
  pub branch : Text
  pub logical_datetime : ℕ
  pub status : RunStatus
  pub started_at : Option ℕ
  pub finished_at : Option ℕ
  pub bundle_sha : Option Text
  pub manifest_sha : Option Text
  pub workflow_run_id : Option Text
  pub notes : Option Text
  pub updated_at : ℕ

abbrev pub is_queued : RunStatus → Bool
is_queued run_queued = true
is_queued run_running = false
is_queued run_succeeded = false
is_queued run_failed = false
is_queued run_cancelled = false

abbrev pub is_running : RunStatus → Bool
is_running run_queued = false
is_running run_running = true
is_running run_succeeded = false
is_running run_failed = false
is_running run_cancelled = false

-- `notInArray(status, ["succeeded", "failed", "cancelled"])` is the negation.
abbrev pub is_terminal : RunStatus → Bool
is_terminal run_queued = false
is_terminal run_running = false
is_terminal run_succeeded = true
is_terminal run_failed = true
is_terminal run_cancelled = true

-- `update ... set ... where`: the table, and how many rows the query returns.
unfoldable pub update_runs : (DagRun → Bool) → (DagRun → DagRun) → List DagRun → List DagRun
update_runs test change [] = []
update_runs test change (r ∷ rs) = (if test r then change r else r) ∷ update_runs test change rs

unfoldable pub any_run : (DagRun → Bool) → List DagRun → Bool
any_run test [] = false
any_run test (r ∷ rs) = test r || any_run test rs

-- The verdict of the workflow: "succeeded" or "failed".
abbrev pub verdict_status : Bool → RunStatus
verdict_status true = run_succeeded
verdict_status false = run_failed

abbrev pub is_open : Text → DagRun → Bool
is_open id r = text_eq r.id id && not (is_terminal r.status)

-- `markRunTerminal`, with the Boolean it returns.
unfoldable pub mark_run_terminal : ℕ → Text → Bool → List DagRun → List DagRun × Bool
unfolding update_runs any_run
mark_run_terminal now id ok runs = (
  update_runs (is_open id)
      (λ r. record r { status = verdict_status ok; finished_at = some now; updated_at = now }) runs,
  any_run (is_open id) runs,
)
