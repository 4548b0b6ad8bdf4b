-- ===== src/Pipeline/Scheduler.antt =====
-- A tick of the scheduler: `runSchedulerTick` of apps/web/src/lib/dag-scheduler.ts.
pub mod Moments
pub mod Enqueue
pub mod Resume
pub mod Dispatch
pub mod Orphans
mod Examples
use lattik_studio.Prelude.{
  ℕ, zero, suc, ◌+◌, ◌-◌, Bool, true, false, not, ◌&&◌, ◌||◌, Option, none, some, List, [], ◌∷◌,
  ◌++◌, Text, codes, text_eq, ◌==◌, ltb, if◌then◌else◌, take, length,
}
use lattik_studio.Pipeline.Attempts.{
  TaskStatus, queued, running, ended, failed, Attempt, Message, given,
}
use lattik_studio.Pipeline.Runs.{
  DagRow, DagRun, RunStatus, run_queued, run_running, run_succeeded, run_failed, run_cancelled,
  is_queued, is_running, update_runs, any_run,
}
use lattik_studio.Pipeline.Enqueueing.{
  Outside, is_separator, compact, compute_run_id, boundary_cap, boundaries, Start, start_cursor,
  queued_run, conflicts, insert_runs, last_or, queued_runs, enqueue_at, enqueue_from,
  enqueue_missed_runs,
}
use lattik_studio.Pipeline.Dispatching.{
  of_dag, count_running, insert_by_date, queued_by_date, has_id, claimable, or_unknown, claim_run,
  roll_back, link_run, start_claimed, dispatch_one, dispatch_all, dispatch_queued,
}
use lattik_studio.Pipeline.Orphans.{
  mirrored, stale_text, is_candidate, candidates, status_of_workflow, close_run, add_note,
  is_task_running, close_attempts, Tables, status_text, text_or_nil, run_note, attempt_note,
  close_orphan, close_orphans, reconcile_orphaned_runs,
}

-- `update dag ... where id`.
unfoldable pub store_dag : DagRow → List DagRow → List DagRow
store_dag d [] = []
store_dag d (e ∷ es) =
    (if text_eq e.id d.id then record e { last_enqueued = d.last_enqueued } else e) ∷ store_dag d es

abbrev is_active : DagRow → Bool
is_active d = d.enabled && not (stale_date d.archived_at)
  where
    stale_date : Option ℕ → Bool
    stale_date none = false
    stale_date (some t) = true

unfoldable pub enabled_dags : List DagRow → List DagRow
enabled_dags [] = []
enabled_dags (d ∷ ds) = if is_active d then d ∷ enabled_dags ds else enabled_dags ds

-- The loop over the pipelines that were selected, and whether it gets to its end: a call of
-- `enqueueMissedRuns` that rejects ends it.
unfoldable pub tick_dags :
    Outside → ℕ → List DagRow → List DagRow → List DagRun → List DagRow × List DagRun × Bool
unfolding enqueue_missed_runs store_dag dispatch_queued
tick_dags o now [] dags runs = (dags, runs, true)
tick_dags o now (d ∷ ds) dags runs = elim (enqueue_missed_runs o d now runs) [
  | none ↦ (dags, runs, false)
  | some e ↦
      let stored = if length e.2 == 0 then dags else store_dag e.0 dags in
      tick_dags o now ds stored (dispatch_queued o d now e.1).0
]

-- `runSchedulerTick`, without the counts that it returns: the tables, and whether it gets to its
-- end.
unfoldable pub run_scheduler_tick : Outside → ℕ → List DagRow → Tables → List DagRow × Tables × Bool
unfolding enabled_dags reconcile_orphaned_runs tick_dags
run_scheduler_tick o now dags db =
    let db' = reconcile_orphaned_runs o now db in
    let t = tick_dags o now (enabled_dags dags) dags db'.runs in
    (t.0, record db' { runs = t.1 }, t.2)
