-- ===== src/Pipeline/Scheduler/Examples.antt =====
-- A pipeline that is due every ten units of time, and applications of the theorems to it.
use lattik_studio.Prelude.{
  ℕ, ◌≡◌, ◌≤◌, ◌+◌, refl, ap, true, false, Option, Text, none, some, List, [], ◌∷◌, ◌++◌, codes,
  text_eq, arith, map,
}
use lattik_studio.Pipeline.Runs.{
  DagRow, ParsedDag, DagRun, run_queued, run_running, run_cancelled, any_run,
}
use lattik_studio.Pipeline.Enqueueing.{
  Outside, compact, boundaries, boundary_cap, queued_run, enqueue_missed_runs,
}
use lattik_studio.Pipeline.Orphans.{Tables, reconcile_orphaned_runs}
use lattik_studio.Pipeline.Dispatching.{count_running, dispatch_one, dispatch_queued}
use lattik_studio.Pipeline.Scheduler.{tick_dags}
use lattik_studio.Pipeline.Scheduler.Moments.{GoesOn, Taken}
use lattik_studio.Pipeline.Scheduler.Enqueue.{interval_at, bookmarked, Enqueued, enqueue_missed_lem}
use lattik_studio.Pipeline.Scheduler.Resume.{enqueue_again, enqueue_resume}
use lattik_studio.Pipeline.Scheduler.Dispatch.{IdsOnce, dispatch_bound, dispatch_once}
use lattik_studio.Pipeline.Scheduler.Orphans.{mirror, reconcile_orphaned_lem}

-- The interval is at a moment, and its next one is ten later; an empty schedule cannot be parsed.
abbrev parse_schedule : Text → Text → ℕ → Option ℕ
parse_schedule [] z t = none
parse_schedule (c ∷ cs) z t = some t

abbrev after_ten : ℕ → Option (ℕ × ℕ)
after_ten i = some (i + 10, i + 10)

abbrev outside : Outside
outside = record {
  Interval = ℕ;
  cron_parse = parse_schedule;
  cron_next = after_ten;
  cron_prev = λ i. none;
  date_of = λ s. 100;
  to_iso = λ t. t ∷ [];
  bundle_sha = λ b. none;
  start = λ r. some (codes "w");
  links = λ r. true;
  workflow_status = λ w. some (codes "cancelled");
}

abbrev parsed : ParsedDag
parsed = record {
  id = codes "p";
  schedule = codes "s";
  timezone = codes "UTC";
  start_date = codes "2026-01-01";
  catchup = true;
  max_active_runs = 1;
}

abbrev pipeline : DagRow
pipeline = record {
  id = codes "p";
  branch = codes "prod";
  source_path = codes "p.yaml";
  yaml_hash = codes "h";
  parsed = parsed;
  schedule = codes "s";
  timezone = codes "UTC";
  start_date = codes "2026-01-01";
  catchup = true;
  max_active_runs = 1;
  enabled = true;
  archived_at = none;
  last_enqueued = none;
}

due_twice : boundaries after_ten 125 9 100 ≡ 110 ∷ 120 ∷ []
unfolding boundaries
due_twice = refl

-- With a schedule that cannot be parsed the tick ends there: the pipeline behind is not reached.
unparsed_ends :
    tick_dags outside 125
      (record pipeline { parsed = record parsed { schedule = [] } } ∷ pipeline ∷ [])
      []
      []
    ≡ ([], [], false)
unfolding tick_dags
unparsed_ends = refl

goes_on : GoesOn after_ten (interval_at outside pipeline)
goes_on c t i j p e = ap some (moment e)
  where
    moment : after_ten i ≡ some (t, j) → t ≡ j
    moment f = cc

enqueue_missed_lem_example :
    (x : DagRow × List DagRun × List ℕ) × (enqueue_missed_runs outside pipeline 125 [] ≡ some x)
    × Taken after_ten 125 boundary_cap 100 x.2
    × (x.0 ≡ bookmarked pipeline x.2)
    × Enqueued outside pipeline 125 [] x.2 x.1
enqueue_missed_lem_example = enqueue_missed_lem outside pipeline 125 100 100 [] refl refl

enqueue_again_example :
    (x : DagRow × List DagRun × List ℕ) × (enqueue_missed_runs outside pipeline 125 [] ≡ some x)
    × (enqueue_missed_runs outside x.0 125 x.1 ≡ some (x.0, x.1, []))
unfolding boundaries
enqueue_again_example =
    enqueue_again outside pipeline 125 100 100 [] refl refl goes_on (omega arith)

enqueue_resume_example :
    (x : DagRow × List DagRun × List ℕ) × (y : DagRow × List DagRun × List ℕ) × (z : DagRow
      × List DagRun
      × List ℕ)
    × (enqueue_missed_runs outside pipeline 125 [] ≡ some x)
    × (enqueue_missed_runs outside x.0 145 x.1 ≡ some y)
    × (enqueue_missed_runs outside pipeline 145 [] ≡ some z)
    × (z.2 ≡ x.2 ++ y.2)
    × (z.0 ≡ y.0)
unfolding boundaries
enqueue_resume_example =
    enqueue_resume outside pipeline 125 145 100 100 [] (omega arith) refl refl refl goes_on
      (omega arith)

abbrev queued_at : ℕ → DagRun
queued_at t = queued_run outside pipeline 125 t

abbrev two_queued : List DagRun
two_queued = queued_at 120 ∷ queued_at 110 ∷ []

two-IdsOnce : IdsOnce two_queued
unfolding any_run text_eq compact
two-IdsOnce = (refl, (refl, tt))

dispatched_first : (dispatch_queued outside pipeline 130 two_queued).1 ≡ (queued_at 110).id ∷ []
unfolding dispatch_queued text_eq compact
dispatched_first = refl

dispatch_bound_example :
    count_running pipeline (dispatch_queued outside pipeline 130 two_queued).0 ≤ 1
unfolding count_running text_eq
dispatch_bound_example = dispatch_bound outside pipeline 130 two_queued two-IdsOnce (omega arith)

dispatch_once_example :
    let first = (dispatch_one outside pipeline 130 (queued_at 110) two_queued).0 in
    dispatch_one outside pipeline 131 (queued_at 110) first ≡ (first, [])
dispatch_once_example =
    dispatch_once outside outside pipeline pipeline 130 131 (queued_at 110) two_queued (codes "w")
      refl refl

abbrev orphan : DagRun
orphan = record (queued_at 110) { status = run_running; workflow_run_id = some (codes "w") }

abbrev tables : Tables
tables = record { runs = orphan ∷ queued_at 120 ∷ []; attempts = [] }

orphan_closed :
    map (λ (r : DagRun). r.status) (reconcile_orphaned_runs outside 99000 tables).runs
    ≡ run_cancelled ∷ run_queued ∷ []
unfolding reconcile_orphaned_runs text_eq compact
orphan_closed = refl

tables-IdsOnce : IdsOnce tables.runs
unfolding any_run text_eq compact
tables-IdsOnce = (refl, (refl, tt))

reconcile_orphaned_lem_example :
    (reconcile_orphaned_runs outside 99000 tables).runs ≡ map (mirror outside 99000) tables.runs
reconcile_orphaned_lem_example = reconcile_orphaned_lem outside 99000 tables tables-IdsOnce
