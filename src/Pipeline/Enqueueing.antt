-- ===== src/Pipeline/Enqueueing.antt =====
-- `enqueueMissedRuns` of apps/web/src/lib/dag-scheduler.ts.
use lattik_studio.Prelude.{
  ℕ, zero, suc, ◌+◌, ◌-◌, Bool, ◌&&◌, ◌||◌, Option, none, some, List, [], ◌∷◌, ◌++◌, Text, text_eq,
  ◌==◌, ltb, if◌then◌else◌,
}
use lattik_studio.Pipeline.Runs.{DagRow, DagRun, run_queued, any_run}

-- What the scheduler takes from outside: the cron parser, dates, the bundle store and the workflows.
-- None stands for an error thrown. An interval of the parser has a state, which `next` and `prev`
-- move.
pub record Outside : Type 1 where
  pub Interval : Type 0
  pub cron_parse : Text → Text → ℕ → Option Interval
  pub cron_next : Interval → Option (ℕ × Interval)
  pub cron_prev : Interval → Option (ℕ × Interval)
  -- `new Date` of a text.
  pub date_of : Text → ℕ
  pub to_iso : ℕ → Text
  pub bundle_sha : Text → Option Text
  pub start : DagRun → Option Text
  -- Whether the update that stores the workflow's id succeeds.
  pub links : DagRun → Bool
  pub workflow_status : Text → Option Text

abbrev pub is_separator : ℕ → Bool
is_separator c = (c == b'-') || ((c == b':') || (c == b'.'))

unfoldable pub compact : Text → Text
compact [] = []
compact (c ∷ cs) = if is_separator c then compact cs else c ∷ compact cs

abbrev pub compute_run_id : Outside → Text → ℕ → Text
compute_run_id o id t = id ++ (b'_' ∷ b'_' ∷ compact (o.to_iso t))

-- `ENQUEUE_BOUNDARY_CAP`.
abbrev pub boundary_cap : ℕ
boundary_cap = 525600

-- The loop over `interval.next()`; the cap is the fuel.
unfoldable pub boundaries : {I : Type 0} → (I → Option (ℕ × I)) → ℕ → ℕ → I → List ℕ
boundaries next now zero i = []
boundaries next now (suc f) i = elim (next i) [
  | none ↦ []
  | some (t, j) ↦ let rest = boundaries next now f j in if ltb now t then [] else t ∷ rest
]

-- The choice of `cursor`: the schedule cannot be parsed and the call rejects, or no moment is past,
-- or the moment to start from.
pub data Start : Type 0 where
  rejected : Start
  nothing_past : Start
  from : ℕ → Start

abbrev pub latest_past : {I : Type 0} → Option (ℕ × I) → Start
latest_past none = nothing_past
latest_past (some (t, i)) = from (t - 1)

abbrev pub probe : (o : Outside) → Option o.Interval → Start
probe o none = rejected
probe o (some i) = latest_past (o.cron_prev i)

abbrev pub cursor_from : Outside → DagRow → ℕ → Option ℕ → Start
cursor_from o d now (some t) = from t
cursor_from o d now none =
    if d.parsed.catchup
    then from (o.date_of d.parsed.start_date)
    else probe o (o.cron_parse d.parsed.schedule d.parsed.timezone (now + 1))

abbrev pub start_cursor : Outside → DagRow → ℕ → Start
start_cursor o d now = cursor_from o d now d.last_enqueued

abbrev pub queued_run : Outside → DagRow → ℕ → ℕ → DagRun
queued_run o d now t = record {
  id = compute_run_id o d.id t;
  dag_id = d.id;
  branch = d.branch;
  logical_datetime = t;
  status = run_queued;
  started_at = none;
  finished_at = none;
  bundle_sha = none;
  manifest_sha = some d.yaml_hash;
  workflow_run_id = none;
  notes = none;
  updated_at = now;
}

-- The primary key, or the unique index on pipeline, branch and moment.
abbrev pub conflicts : DagRun → DagRun → Bool
conflicts new r =
    text_eq r.id new.id
    || (text_eq r.dag_id new.dag_id
        && (text_eq r.branch new.branch && (r.logical_datetime == new.logical_datetime)))

-- `insert ... on conflict do nothing`.
unfoldable pub insert_runs : List DagRun → List DagRun → List DagRun
unfolding any_run
insert_runs [] runs = runs
insert_runs (new ∷ more) runs =
    insert_runs more (if any_run (conflicts new) runs then runs else runs ++ new ∷ [])

abbrev pub last_or : ℕ → List ℕ → ℕ
last_or c [] = c
last_or c (t ∷ ts) = last_or t ts

unfoldable pub queued_runs : Outside → DagRow → ℕ → List ℕ → List DagRun
queued_runs o d now [] = []
queued_runs o d now (t ∷ ts) = queued_run o d now t ∷ queued_runs o d now ts

abbrev pub enqueue_at : Outside → DagRow → ℕ → List ℕ → List DagRun → DagRow × List DagRun × List ℕ
enqueue_at o d now [] runs = (d, runs, [])
enqueue_at o d now (t ∷ ts) runs = (
  record d { last_enqueued = some (last_or t ts) },
  insert_runs (queued_runs o d now (t ∷ ts)) runs,
  t ∷ ts,
)

abbrev pub enqueue_parsed :
    (o : Outside)
    → DagRow
    → ℕ
    → ℕ
    → Option o.Interval
    → List DagRun
    → Option (DagRow × List DagRun × List ℕ)
enqueue_parsed o d cap now none runs = none
enqueue_parsed o d cap now (some i) runs =
    some (enqueue_at o d now (boundaries o.cron_next now cap i) runs)

abbrev pub enqueue_from :
    Outside → DagRow → ℕ → ℕ → Start → List DagRun → Option (DagRow × List DagRun × List ℕ)
enqueue_from o d cap now rejected runs = none
enqueue_from o d cap now nothing_past runs = some (d, runs, [])
enqueue_from o d cap now (from c) runs =
    enqueue_parsed o d cap now (o.cron_parse d.parsed.schedule d.parsed.timezone c) runs

-- `enqueueMissedRuns`: the row of the pipeline, the runs, and the moments enqueued; none if the
-- schedule cannot be parsed and the call rejects.
unfoldable pub enqueue_missed_runs :
    Outside → DagRow → ℕ → List DagRun → Option (DagRow × List DagRun × List ℕ)
unfolding boundaries insert_runs queued_runs
enqueue_missed_runs o d now = enqueue_from o d boundary_cap now (start_cursor o d now)
