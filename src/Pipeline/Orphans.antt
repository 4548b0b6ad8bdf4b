-- ===== src/Pipeline/Orphans.antt =====
-- `reconcileOrphanedRuns` of apps/web/src/lib/dag-scheduler.ts.
use lattik_studio.Prelude.{
  ℕ, ◌+◌, Bool, true, false, ◌&&◌, Option, none, some, List, [], ◌∷◌, ◌++◌, Text, codes, text_eq,
  ltb, if◌then◌else◌,
}
use lattik_studio.Pipeline.Attempts.{
  TaskStatus, queued, running, ended, failed, Attempt, Message, given,
}
use lattik_studio.Pipeline.Runs.{
  DagRun, RunStatus, run_queued, run_running, run_succeeded, run_failed, run_cancelled, is_running,
  update_runs,
}
use lattik_studio.Pipeline.Enqueueing.{Outside}
use lattik_studio.Pipeline.Dispatching.{has_id}

-- The status of a workflow that has ended without a word: "failed" or "cancelled".
abbrev pub mirrored : Option Text → Option RunStatus
mirrored none = none
mirrored (some s) =
    if text_eq s (codes "failed")
    then some run_failed
    else if text_eq s (codes "cancelled")
    then some run_cancelled
    else none

abbrev pub stale_text : Option Text → Bool
stale_text none = false
stale_text (some s) = true

-- The candidates: `running`, with a workflow, and not updated for a minute.
abbrev pub is_candidate : ℕ → DagRun → Bool
is_candidate now r =
    is_running r.status && (stale_text r.workflow_run_id && ltb (r.updated_at + 60000) now)

unfoldable pub candidates : ℕ → List DagRun → List DagRun
candidates now [] = []
candidates now (r ∷ rs) = if is_candidate now r then r ∷ candidates now rs else candidates now rs

abbrev pub status_of_workflow : Outside → Option Text → Option RunStatus
status_of_workflow o none = none
status_of_workflow o (some workflow) = mirrored (o.workflow_status workflow)

abbrev pub close_run : ℕ → RunStatus → Text → DagRun → DagRun
close_run now s note r = record r {
  status = s;
  finished_at = some now;
  notes = some note;
  updated_at = now;
}

abbrev pub add_note : Option Text → Text → Text
add_note none note = note
add_note (some []) note = note
add_note (some (c ∷ cs)) note = (c ∷ cs) ++ (10 ∷ note)

abbrev pub is_task_running : TaskStatus → Bool
is_task_running queued = false
is_task_running running = true
is_task_running (ended s) = false

-- The running attempts of a run that is closed.
unfoldable pub close_attempts : ℕ → Text → Message → List Attempt → List Attempt
close_attempts now run m [] = []
close_attempts now run m (a ∷ rest) =
    (if text_eq a.run run && is_task_running a.status
      then record a { status = ended failed; finished_at = some now; error_message = some m }
      else a)
    ∷ close_attempts now run m rest

pub record Tables : Type 0 where
  pub runs : List DagRun
  pub attempts : List Attempt

abbrev pub status_text : RunStatus → Text
status_text run_queued = codes "queued"
status_text run_running = codes "running"
status_text run_succeeded = codes "succeeded"
status_text run_failed = codes "failed"
status_text run_cancelled = codes "cancelled"

abbrev pub text_or_nil : Option Text → Text
text_or_nil none = []
text_or_nil (some t) = t

abbrev pub run_note : DagRun → RunStatus → Text
run_note r s =
    codes "[reconciler] workflow "
    ++ (text_or_nil r.workflow_run_id
        ++ (codes " reached terminal "
            ++ (status_text s ++ codes " without the markRunTerminal step landing")))

abbrev pub attempt_note : RunStatus → Message
attempt_note s = given (codes "[reconciler] orphaned by workflow " ++ status_text s)

abbrev pub close_orphan : ℕ → DagRun → Option RunStatus → Tables → Tables
close_orphan now r none db = db
close_orphan now r (some s) db = record {
  runs = update_runs (has_id r.id) (close_run now s (add_note r.notes (run_note r s))) db.runs;
  attempts = close_attempts now r.id (attempt_note s) db.attempts;
}

unfoldable pub close_orphans : Outside → ℕ → List DagRun → Tables → Tables
unfolding update_runs close_attempts
close_orphans o now [] db = db
close_orphans o now (r ∷ rs) db =
    close_orphans o now rs (close_orphan now r (status_of_workflow o r.workflow_run_id) db)

-- `reconcileOrphanedRuns`, without the count that it returns.
unfoldable pub reconcile_orphaned_runs : Outside → ℕ → Tables → Tables
unfolding candidates close_orphans
reconcile_orphaned_runs o now db = close_orphans o now (candidates now db.runs) db
