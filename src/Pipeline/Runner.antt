-- ===== src/Pipeline/Runner.antt =====
-- The workflow of a run: apps/web/src/workflows/dag-runner.ts.
pub mod Rows
pub mod Statuses
pub mod Safety
pub mod Again
pub mod Table
pub mod Verdict
pub mod Loading
use lattik_studio.Prelude.{
  ℕ, ◌+◌, ◌-◌, ◌*◌, ◌/◌, Bool, true, false, ◌&&◌, ◌||◌, Option, none, some, List, [], ◌∷◌, Text,
  codes, text_eq, ◌==◌, leb, if◌then◌else◌, Dict, get, put, upper_unit, to_upper, ◌++◌,
}
use lattik_studio.Pipeline.Topology.{
  TaskDef, TopoResult, unknown_task, has_cycle, sorted, out_of_fuel, topo_sort,
}
use lattik_studio.Pipeline.Attempts.{
  TerminalStatus, succeeded, failed, skipped, TaskStatus, running, ended, Message, given,
  runner_exit, runner_exited_without_callback, no_callback_within, invalid_duration,
  base_url_missing, Attempt, record_attempt, only_attempt, mark_skipped, record_workflow_error,
  load_existing,
}
use lattik_studio.Pipeline.Runs.{DagRun, mark_run_terminal}
use lattik_studio.Pipeline.Durations.{
  is_decimal_digit, read_digits, unit_ms, in_unit, parse_duration_ms, effective_timeout,
}
use lattik_studio.Pipeline.Outcomes.{
  sandbox_shutdown_grace_ms, callback_flush_ms, watchdog_seconds, SandboxDoneEvent, MissingCallback,
  TaskOutcome, or_message, outcome_from_sandbox_event, exit_message, outcome_from_missing_callback,
  good, bad,
}

-- What `launchTaskSandbox` gives, or the error it throws.
pub data Launch : Type 0 where
  launch_threw : Text → Launch
  refused : Text → Launch
  launched : Launch

-- What ends the race: the callback, or the watchdog with what is then found.
pub data Winner : Type 0 where
  done : SandboxDoneEvent → Winner
  watchdog_fired : MissingCallback → Winner

-- What a run takes from outside: the time, whether `callbackUrl` has a base, and the sandboxes.
pub record World : Type 0 where
  pub now : ℕ
  pub has_base_url : Bool
  pub launch : TaskDef → ℕ → Launch
  pub winner : TaskDef → Winner

-- The status of a task with the attempts it leaves, or the error thrown.
pub data Ran : Type 0 where
  returned : TerminalStatus → List Attempt → Ran
  threw : Message → List Attempt → Ran

abbrev pub is_bad : Option TerminalStatus → Bool
is_bad none = false
is_bad (some succeeded) = false
is_bad (some failed) = true
is_bad (some skipped) = true

-- `depResults.some(...)`; a dependency with no future gives `undefined`.
unfoldable pub blocked : List Text → Dict TerminalStatus → Bool
blocked [] futures = false
blocked (d ∷ ds) futures = is_bad (get d futures) || blocked ds futures

-- The status that an earlier execution earned.
abbrev pub earned : Option TerminalStatus → Option TerminalStatus
earned none = none
earned (some succeeded) = some succeeded
earned (some failed) = some failed
earned (some skipped) = none

module _ (w : World) (run : Text) (default : Text) where
  unfoldable pub record_outcome : TaskDef → TaskOutcome → List Attempt → Ran
  unfolding record_attempt
  record_outcome t good rows =
      returned succeeded (record_attempt w.now run t.id only_attempt (ended succeeded) none rows)
  record_outcome t (bad m) rows =
      returned failed (record_attempt w.now run t.id only_attempt (ended failed) (some m) rows)

  unfoldable pub after_race : TaskDef → ℕ → Winner → List Attempt → Ran
  unfolding record_outcome outcome_from_sandbox_event outcome_from_missing_callback
  after_race t ms (done ev) rows = record_outcome t (outcome_from_sandbox_event ev) rows
  after_race t ms (watchdog_fired status) rows =
      record_outcome t (outcome_from_missing_callback status (watchdog_seconds ms)) rows

  unfoldable pub after_launch : TaskDef → ℕ → Launch → List Attempt → Ran
  unfolding record_outcome after_race
  after_launch t ms (launch_threw m) rows = threw (given m) rows
  after_launch t ms (refused m) rows = record_outcome t (bad (given m)) rows
  after_launch t ms launched rows = after_race t ms (w.winner t) rows

  unfoldable pub run_one_task : TaskDef → List Attempt → Ran
  unfolding parse_duration_ms record_attempt after_launch
  run_one_task t rows = elim (parse_duration_ms (effective_timeout default t)) [
    | none ↦ threw (invalid_duration (effective_timeout default t)) rows
    | some ms ↦
        if w.has_base_url
        then after_launch t ms (w.launch t ms)
            (record_attempt w.now run t.id only_attempt running none rows)
        else threw base_url_missing rows
  ]

  -- The handler around the whole body of `runTaskWithDeps`.
  unfoldable pub caught : TaskDef → Ran → TerminalStatus × List Attempt
  unfolding record_workflow_error
  caught t (returned s rows) = (s, rows)
  caught t (threw m rows) = (failed, record_workflow_error w.now run t.id m rows)

  unfoldable pub run_fresh :
      TaskDef → Dict TerminalStatus → List Attempt → TerminalStatus × List Attempt
  unfolding blocked mark_skipped run_one_task caught
  run_fresh t futures rows =
      if blocked t.depends_on futures
      then (skipped, mark_skipped w.now run t.id rows)
      else caught t (run_one_task t rows)

  unfoldable pub run_task_with_deps :
      TaskDef
      → Dict TerminalStatus
      → Dict TerminalStatus
      → List Attempt
      → TerminalStatus × List Attempt
  unfolding run_fresh
  run_task_with_deps t futures priors rows = elim (earned (get t.id priors)) [
    | some s ↦ (s, rows)
    | none ↦ run_fresh t futures rows
  ]

  -- The loop that starts the tasks. A task waits for its dependencies only and writes rows of its
  -- own only, so the tasks are run one after the other.
  unfoldable pub run_tasks :
      List TaskDef
      → Dict TerminalStatus
      → Dict TerminalStatus
      → List Attempt
      → Dict TerminalStatus × List Attempt
  unfolding run_task_with_deps
  run_tasks [] futures priors rows = (futures, rows)
  run_tasks (t ∷ ts) futures priors rows =
      let r = run_task_with_deps t futures priors rows in
      run_tasks ts (put t.id r.0 futures) priors r.1

-- `status === "failed"`.
abbrev pub is_failed : Option TerminalStatus → Bool
is_failed none = false
is_failed (some succeeded) = false
is_failed (some failed) = true
is_failed (some skipped) = false

-- The ids of the tasks that have failed.
unfoldable pub failed_tasks : List TaskDef → Dict TerminalStatus → List Text
failed_tasks [] futures = []
failed_tasks (t ∷ ts) futures =
    if is_failed (get t.id futures) then t.id ∷ failed_tasks ts futures else failed_tasks ts futures

pub record RunnerDb : Type 0 where
  pub runs : List DagRun
  pub attempts : List Attempt

-- What a run returns: whether it succeeded, and the tasks that failed.
pub record RunReply : Type 0 where
  pub success : Bool
  pub failed_ids : List Text

-- The definition of a pipeline as `buildDagRunContext` reads it.
pub record DagDef : Type 0 where
  pub tasks : List TaskDef
  pub default_timeout : Text

abbrev no_text : List Text → Bool
no_text [] = true
no_text (x ∷ xs) = false

-- The end of every path through `dagRunner`.
abbrev pub close_dag_run : World → Text → RunReply → RunnerDb → RunReply × RunnerDb
close_dag_run w run reply db =
    (reply, record db { runs = (mark_run_terminal w.now run reply.success db.runs).0 })

abbrev pub run_sorted : World → Text → DagDef → TopoResult → RunnerDb → RunReply × RunnerDb
run_sorted w run d (sorted ts) db =
    let res = run_tasks w run d.default_timeout ts [] (load_existing run db.attempts) db.attempts in
    let bad_ids = failed_tasks ts res.0 in
    close_dag_run w run (record { success = no_text bad_ids; failed_ids = bad_ids })
      (record db { attempts = res.1 })
run_sorted w run d (unknown_task t x) db =
    close_dag_run w run (record { success = false; failed_ids = [] }) db
run_sorted w run d has_cycle db =
    close_dag_run w run (record { success = false; failed_ids = [] }) db
run_sorted w run d out_of_fuel db =
    close_dag_run w run (record { success = false; failed_ids = [] }) db

-- `dagRunner` on the definition that the `dag` table has, if any.
unfoldable pub dag_runner : World → Text → Option DagDef → RunnerDb → RunReply × RunnerDb
unfolding topo_sort run_tasks failed_tasks load_existing mark_run_terminal
dag_runner w run none db = close_dag_run w run (record { success = false; failed_ids = [] }) db
dag_runner w run (some d) db = run_sorted w run d (topo_sort d.tasks) db
