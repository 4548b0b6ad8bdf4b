-- ===== src/Pipeline/Examples.antt =====
-- A pipeline and runs of it, and applications of the theorems to them.
use lattik_studio.Prelude.{
  map, ℕ, ◌≡◌, ◌≢◌, ◌↔◌, refl, true, false, not, none, some, List, [], ◌∷◌, Text, codes, text_eq,
  mem_text, length, arith, get, put, All, Member, here, there, ◌&&◌,
}
use lattik_studio.Pipeline.Topology.{TaskDef, sorted, out_of_fuel, topo_sort}
use lattik_studio.Pipeline.Topology.Edges.{ids_of, DistinctIds}
use lattik_studio.Pipeline.Topology.Order.{InOrder}
use lattik_studio.Pipeline.Topology.Laws.{topo_sort_total}
use lattik_studio.Pipeline.Topology.Promise.{topo_sort_sound, topo_sort_complete}
use lattik_studio.Pipeline.Attempts.{TerminalStatus, succeeded, failed, skipped, load_existing}
use lattik_studio.Pipeline.Runs.{DagRun, run_running, run_failed}
use lattik_studio.Pipeline.Runner.{
  World, launched, done, DagDef, RunnerDb, run_tasks, dag_runner, earned,
}
use lattik_studio.Pipeline.Runner.Statuses.{Solved, run_tasks-Solved}
use lattik_studio.Pipeline.Runner.Safety.{succeeded_after_deps}
use lattik_studio.Pipeline.Runner.Rows.{status_of}
use lattik_studio.Pipeline.Runner.Table.{row_after, run_tasks_rows}
use lattik_studio.Pipeline.Runner.Loading.{respawn_same}
use lattik_studio.Pipeline.Runner.Verdict.{Closed, after_run, dag_runner_closes, dag_runner_verdict}

abbrev task : Text → List Text → TaskDef
task id deps = record { id = id; fn = codes "f"; depends_on = deps; timeout = none }

abbrev task_a : TaskDef
task_a = task (codes "a") []

abbrev task_b : TaskDef
task_b = task (codes "b") (codes "a" ∷ [])

abbrev task_c : TaskDef
task_c = task (codes "c") (codes "a" ∷ [])

abbrev task_d : TaskDef
task_d = task (codes "d") (codes "b" ∷ codes "c" ∷ [])

abbrev diamond : List TaskDef
diamond = task_d ∷ task_c ∷ task_b ∷ task_a ∷ []

abbrev in_order : List TaskDef
in_order = task_a ∷ task_c ∷ task_b ∷ task_d ∷ []

diamond_sorted : topo_sort diamond ≡ sorted in_order
unfolding topo_sort text_eq get put
diamond_sorted = refl

topo_sort_total_example : topo_sort diamond ≢ out_of_fuel
topo_sort_total_example = topo_sort_total diamond

diamond-DistinctIds : DistinctIds diamond
unfolding mem_text text_eq
diamond-DistinctIds = (refl, (refl, (refl, (refl, tt))))

topo_sort_sound_example :
    InOrder [] in_order
    × All (λ t. Member t diamond) in_order
    × All (λ t. mem_text t.id (ids_of in_order) ≡ true) diamond
    × (length in_order ≡ length diamond)
topo_sort_sound_example = topo_sort_sound diamond in_order diamond-DistinctIds diamond_sorted

-- The rank of a task is its letter.
abbrev letter : Text → ℕ
letter [] = 0
letter (c ∷ cs) = c

topo_sort_complete_example : (out : List TaskDef) × (topo_sort diamond ≡ sorted out)
unfolding mem_text text_eq
topo_sort_complete_example = topo_sort_complete diamond letter diamond-DistinctIds (
  ((refl, omega arith), ((refl, omega arith), tt)),
  (((refl, omega arith), tt), (((refl, omega arith), tt), (tt, tt))),
)

-- The sandbox of the task `b` fails.
abbrev failing_b : World
failing_b = record {
  now = 7;
  has_base_url = true;
  launch = λ t ms. launched;
  winner = λ t. done (record {
    ok = not (text_eq t.id (codes "b"));
    exit_code = 1;
    error_message = [];
    stderr_tail = [];
  });
}

-- Every sandbox succeeds.
abbrev all_well : World
all_well = record {
  now = 9;
  has_base_url = true;
  launch = λ t ms. launched;
  winner = λ t. done (record { ok = true; exit_code = 0; error_message = []; stderr_tail = [] });
}

abbrev run_1 : Text
run_1 = codes "r1"

abbrev minutes : Text
minutes = codes "30m"

-- The task `d` is skipped behind the failed `b`.
statuses_of_failing :
    (run_tasks failing_b run_1 minutes in_order [] [] []).0
    ≡ (codes "a", succeeded)
      ∷ (codes "c", succeeded)
      ∷ (codes "b", failed)
      ∷ (codes "d", skipped)
      ∷ []
unfolding run_tasks text_eq get put
statuses_of_failing = refl

run_tasks-Solved_example :
    All
      (λ t.
        Solved failing_b run_1 minutes [] (run_tasks failing_b run_1 minutes in_order [] [] []).0 t)
      in_order
run_tasks-Solved_example =
    run_tasks-Solved failing_b run_1 minutes diamond in_order [] [] diamond-DistinctIds
      diamond_sorted

succeeded_after_deps_example :
    All
      (λ d. get d (run_tasks failing_b run_1 minutes in_order [] [] []).0 ≡ some succeeded)
      task_c.depends_on
unfolding run_tasks text_eq get put
succeeded_after_deps_example =
    succeeded_after_deps failing_b run_1 minutes diamond in_order [] [] task_c diamond-DistinctIds
      diamond_sorted (there here) (λ h. cc) refl

in_order-DistinctIds : DistinctIds in_order
unfolding mem_text text_eq
in_order-DistinctIds = (refl, (refl, (refl, (refl, tt))))

run_tasks_rows_example :
    let res = run_tasks failing_b run_1 minutes in_order [] [] [] in
    ((t : TaskDef)
      → Member t in_order
      → (v : TerminalStatus) × (get t.id res.0 ≡ some v)
        × (status_of run_1 t.id res.1
            ≡ row_after (earned (get t.id [])) v (status_of run_1 t.id []))
        × ((p : TerminalStatus) → earned (get t.id []) ≡ some p → v ≡ p))
    × ((r x : Text)
        → (text_eq run_1 r && mem_text x (ids_of in_order)) ≡ false
        → status_of r x res.1 ≡ status_of r x [])
run_tasks_rows_example = run_tasks_rows failing_b run_1 minutes in_order [] [] in_order-DistinctIds

respawn_same_example :
    let first = run_tasks failing_b run_1 minutes in_order [] (load_existing run_1 []) [] in
    let second =
      run_tasks all_well run_1 minutes in_order [] (load_existing run_1 first.1) first.1 in
    All (λ t. get t.id second.0 ≡ get t.id first.0) in_order
respawn_same_example =
    respawn_same failing_b all_well run_1 minutes diamond in_order [] diamond-DistinctIds
      diamond_sorted tt

abbrev run_row : DagRun
run_row = record {
  id = run_1;
  dag_id = codes "p";
  branch = codes "prod";
  logical_datetime = 1;
  status = run_running;
  started_at = some 2;
  finished_at = none;
  bundle_sha = none;
  manifest_sha = none;
  workflow_run_id = some (codes "w");
  notes = none;
  updated_at = 2;
}

abbrev runner_db : RunnerDb
runner_db = record { runs = run_row ∷ []; attempts = [] }

abbrev diamond_def : DagDef
diamond_def = record { tasks = diamond; default_timeout = minutes }

run_fails :
    (dag_runner failing_b run_1 (some diamond_def) runner_db).1.runs
    ≡ (record run_row { status = run_failed; finished_at = some 7; updated_at = 7 }) ∷ []
unfolding dag_runner text_eq get put
run_fails = refl

dag_runner_closes_example :
    let r = dag_runner failing_b run_1 (some diamond_def) runner_db in
    (r.1.runs ≡ map (after_run 7 run_1 r.0.success) (run_row ∷ [])) × Closed run_1 r.1.runs
dag_runner_closes_example = dag_runner_closes failing_b run_1 (some diamond_def) runner_db

dag_runner_verdict_example :
    ((dag_runner failing_b run_1 (some diamond_def) runner_db).0.success ≡ true)
    ↔ All
        (λ t.
          get t.id (run_tasks failing_b run_1 minutes in_order [] (load_existing run_1 []) []).0
          ≢ some failed)
        in_order
dag_runner_verdict_example =
    dag_runner_verdict failing_b run_1 diamond_def runner_db in_order diamond_sorted
