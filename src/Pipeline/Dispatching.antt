-- ===== src/Pipeline/Dispatching.antt =====
-- `dispatchQueued` of apps/web/src/lib/dag-scheduler.ts.
use lattik_studio.Prelude.{
  ℕ, suc, ◌-◌, Bool, ◌&&◌, Option, none, some, List, [], ◌∷◌, ◌++◌, Text, codes, text_eq, ltb,
  if◌then◌else◌, take,
}
use lattik_studio.Pipeline.Runs.{
  DagRow, DagRun, run_queued, run_running, is_queued, is_running, update_runs, any_run,
}
use lattik_studio.Pipeline.Enqueueing.{Outside}

abbrev pub of_dag : DagRow → DagRun → Bool
of_dag d r = text_eq r.dag_id d.id && text_eq r.branch d.branch

unfoldable pub count_running : DagRow → List DagRun → ℕ
count_running d [] = 0
count_running d (r ∷ rs) =
    if of_dag d r && is_running r.status then suc (count_running d rs) else count_running d rs

-- `orderBy(logicalDatetime)`.
unfoldable pub insert_by_date : DagRun → List DagRun → List DagRun
insert_by_date r [] = r ∷ []
insert_by_date r (s ∷ ss) =
    if ltb s.logical_datetime r.logical_datetime then s ∷ insert_by_date r ss else r ∷ s ∷ ss

unfoldable pub queued_by_date : DagRow → List DagRun → List DagRun
unfolding insert_by_date
queued_by_date d [] = []
queued_by_date d (r ∷ rs) =
    if of_dag d r && is_queued r.status
    then insert_by_date r (queued_by_date d rs)
    else queued_by_date d rs

abbrev pub has_id : Text → DagRun → Bool
has_id id r = text_eq r.id id

abbrev pub claimable : Text → DagRun → Bool
claimable id r = text_eq r.id id && is_queued r.status

abbrev pub or_unknown : Option Text → Text
or_unknown none = codes "unknown"
or_unknown (some s) = s

abbrev pub claim_run : ℕ → Text → DagRun → DagRun
claim_run now sha r = record r {
  status = run_running;
  started_at = some now;
  bundle_sha = some sha;
  updated_at = now;
}

-- The handler: the row goes back to `queued`.
abbrev pub roll_back : ℕ → DagRun → DagRun
roll_back now r = record r { status = run_queued; started_at = none; updated_at = now }

abbrev pub link_run : ℕ → Text → DagRun → DagRun
link_run now workflow r = record r { workflow_run_id = some workflow; updated_at = now }

-- The try block behind a claim, with the ids dispatched.
abbrev pub start_claimed : ℕ → DagRun → Option Text → Bool → List DagRun → List DagRun × List Text
start_claimed now run none links runs = (update_runs (has_id run.id) (roll_back now) runs, [])
start_claimed now run (some workflow) links runs =
    if links
    then (update_runs (has_id run.id) (link_run now workflow) runs, run.id ∷ [])
    else (update_runs (has_id run.id) (roll_back now) runs, [])

unfoldable pub dispatch_one : Outside → DagRow → ℕ → DagRun → List DagRun → List DagRun × List Text
unfolding update_runs any_run
dispatch_one o d now run runs =
    if any_run (claimable run.id) runs
    then start_claimed now run (o.start run) (o.links run)
        (update_runs (claimable run.id) (claim_run now (or_unknown (o.bundle_sha d.branch))) runs)
    else (runs, [])

unfoldable pub dispatch_all :
    Outside → DagRow → ℕ → List DagRun → List DagRun → List DagRun × List Text
unfolding dispatch_one
dispatch_all o d now [] runs = (runs, [])
dispatch_all o d now (run ∷ more) runs =
    let one = dispatch_one o d now run runs in
    let rest = dispatch_all o d now more one.0 in (rest.0, one.1 ++ rest.1)

-- `dispatchQueued`. No slot takes no run.
unfoldable pub dispatch_queued : Outside → DagRow → ℕ → List DagRun → List DagRun × List Text
unfolding count_running queued_by_date dispatch_all
dispatch_queued o d now runs =
    let slots = d.max_active_runs - count_running d runs in
    dispatch_all o d now (take slots (queued_by_date d runs)) runs
