-- ===== src/Pipeline/Runner/Verdict.antt =====
-- The end of a run (apps/web/src/workflows/dag-runner.ts).
use lattik_studio.Prelude.{
  ℕ, ◌≡◌, ◌≢◌, ◌↔◌, inl, inr, refl, sym, ap, subst, ◌∙◌, Bool, true, false, not, ◌||◌, Option, none,
  some, List, [], ◌∷◌, Text, text_eq, Dict, get, All, Bool-cases, arith, map, if◌then◌else◌,
}
use lattik_studio.Pipeline.Topology.{
  TaskDef, TopoResult, unknown_task, has_cycle, sorted, out_of_fuel, topo_sort,
}
use lattik_studio.Pipeline.Attempts.{TerminalStatus, succeeded, failed, skipped, load_existing}
use lattik_studio.Pipeline.Runs.{
  DagRun, is_terminal, update_runs, any_run, verdict_status, mark_run_terminal, RunStatus,
  run_queued, run_running, run_succeeded, run_failed, run_cancelled,
}
use lattik_studio.Pipeline.Runner.{
  World, DagDef, RunnerDb, failed_tasks, run_tasks, run_sorted, dag_runner, no_text, is_failed,
}

-- Every row of the run is terminal.
abbrev pub Closed : Text → List DagRun → Type 0
Closed run = All (λ r. (not (text_eq r.id run) || is_terminal r.status) ≡ true)

verdict-terminal : (ok : Bool) → is_terminal (verdict_status ok) ≡ true
verdict-terminal true = refl
verdict-terminal false = refl

mark-Closed :
    (now : ℕ) (run : Text) (ok : Bool) (runs : List DagRun)
    → Closed run (mark_run_terminal now run ok runs).0
unfolding mark_run_terminal update_runs
mark-Closed now run ok [] = tt
mark-Closed now run ok (r ∷ rs) = (ground (arith, verdict-terminal ok), mark-Closed now run ok rs)

marked_again :
    (now : ℕ) (run : Text) (ok : Bool) (runs : List DagRun)
    → Closed run runs
    → mark_run_terminal now run ok runs ≡ (runs, false)
unfolding mark_run_terminal update_runs any_run
marked_again now run ok [] c = refl
marked_again now run ok (r ∷ rs) c = ground (arith, c.0, marked_again now run ok rs c.1)

-- A run is marked with a verdict once: then all its rows are terminal, and another mark, of any
-- verdict and at any time, changes no row and returns false.
pub mark_run_terminal_once :
    (now now' : ℕ) (run : Text) (ok ok' : Bool) (runs : List DagRun)
    → let marked = (mark_run_terminal now run ok runs).0 in
      Closed run marked × (mark_run_terminal now' run ok' marked ≡ (marked, false))
mark_run_terminal_once now now' run ok ok' runs = (
  mark-Closed now run ok runs,
  marked_again now' run ok' (mark_run_terminal now run ok runs).0 (mark-Closed now run ok runs),
)

-- The status of a row behind a run that ended well or not.
abbrev pub status_after : Bool → RunStatus → RunStatus
status_after true run_queued = run_succeeded
status_after true run_running = run_succeeded
status_after false run_queued = run_failed
status_after false run_running = run_failed
status_after ok run_succeeded = run_succeeded
status_after ok run_failed = run_failed
status_after ok run_cancelled = run_cancelled

-- A row of the run behind it: one that has ended already stays as it is.
abbrev closed_row : ℕ → Bool → DagRun → RunStatus → DagRun
closed_row now ok r run_queued = record r {
  status = status_after ok run_queued;
  finished_at = some now;
  updated_at = now;
}
closed_row now ok r run_running = record r {
  status = status_after ok run_running;
  finished_at = some now;
  updated_at = now;
}
closed_row now ok r run_succeeded = r
closed_row now ok r run_failed = r
closed_row now ok r run_cancelled = r

-- A row behind a run: rows of other runs stay as they are.
abbrev pub after_run : ℕ → Text → Bool → DagRun → DagRun
after_run now run ok r = if text_eq r.id run then closed_row now ok r r.status else r

closed_row-lem :
    (now : ℕ) (ok : Bool) (r : DagRun) (s : RunStatus)
    → closed_row now ok r s ≡ (
        if not (is_terminal s)
        then record r { status = verdict_status ok; finished_at = some now; updated_at = now }
        else r)
closed_row-lem now true r run_queued = refl
closed_row-lem now false r run_queued = refl
closed_row-lem now true r run_running = refl
closed_row-lem now false r run_running = refl
closed_row-lem now ok r run_succeeded = refl
closed_row-lem now ok r run_failed = refl
closed_row-lem now ok r run_cancelled = refl

mark-after_run :
    (now : ℕ) (run : Text) (ok : Bool) (runs : List DagRun)
    → (mark_run_terminal now run ok runs).0 ≡ map (after_run now run ok) runs
unfolding mark_run_terminal update_runs
mark-after_run now run ok [] = refl
mark-after_run now run ok (r ∷ rs) = elim (Bool-cases (text_eq r.id run)) [
  | inl e ↦ rw (e, mark-after_run now run ok rs, closed_row-lem now ok r r.status) refl
  | inr e ↦ rw (e, mark-after_run now run ok rs) refl
]

sorted_runs :
    (w : World) (run : Text) (d : DagDef) (o : TopoResult) (db : RunnerDb)
    → (run_sorted w run d o db).1.runs
      ≡ (mark_run_terminal w.now run (run_sorted w run d o db).0.success db.runs).0
sorted_runs w run d (sorted ts) db = refl
sorted_runs w run d (unknown_task t x) db = refl
sorted_runs w run d has_cycle db = refl
sorted_runs w run d out_of_fuel db = refl

-- However a run goes, also with no definition or one that cannot be sorted: behind it, each row of
-- the run that was queued or running has the verdict that the run returns as its status, and the
-- time of the mark as the time of its end and of its update; a row of the run that had ended stays
-- as it was, also if it was cancelled while the run went on, as does a row of any other run; and
-- then all rows of the run are terminal.
pub dag_runner_closes :
    (w : World) (run : Text) (d : Option DagDef) (db : RunnerDb)
    → let r = dag_runner w run d db in
      (r.1.runs ≡ map (after_run w.now run r.0.success) db.runs) × Closed run r.1.runs
unfolding dag_runner
dag_runner_closes w run none db =
    (mark-after_run w.now run false db.runs, mark-Closed w.now run false db.runs)
dag_runner_closes w run (some d) db =
    let f = sorted_runs w run d (topo_sort d.tasks) db in
    let ok = (run_sorted w run d (topo_sort d.tasks) db).0.success in
    (
      f ∙ mark-after_run w.now run ok db.runs,
      subst (Closed run) (sym f) (mark-Closed w.now run ok db.runs),
    )

is_failed-eq : (o : Option TerminalStatus) → is_failed o ≡ true → o ≡ some failed
is_failed-eq none h = cc
is_failed-eq (some succeeded) h = cc
is_failed-eq (some failed) h = refl
is_failed-eq (some skipped) h = cc

none_failed :
    (ts : List TaskDef) (s : Dict TerminalStatus)
    → no_text (failed_tasks ts s) ≡ true
    → All (λ t. get t.id s ≢ some failed) ts
unfolding failed_tasks
none_failed [] s h = tt
none_failed (t ∷ ts) s h = elim (Bool-cases (is_failed (get t.id s))) [
  | inl e ↦ absurd (false-ne-true (rw e at h))
  | inr e ↦ (λ f. false-ne-true (sym e ∙ ap is_failed f), none_failed ts s (rw e at h))
]
  where
    false-ne-true : false ≢ true
    false-ne-true k = cc

failed_none :
    (ts : List TaskDef) (s : Dict TerminalStatus)
    → All (λ t. get t.id s ≢ some failed) ts
    → no_text (failed_tasks ts s) ≡ true
unfolding failed_tasks
failed_none [] s a = refl
failed_none (t ∷ ts) s a = elim (Bool-cases (is_failed (get t.id s))) [
  | inl e ↦ absurd (a.0 (is_failed-eq (get t.id s) e))
  | inr e ↦ rw e (failed_none ts s a.1)
]

-- For a pipeline that the sort accepts, the run succeeds exactly if no task ends as `failed`.
pub dag_runner_verdict :
    (w : World) (run : Text) (d : DagDef) (db : RunnerDb) (out : List TaskDef)
    → topo_sort d.tasks ≡ sorted out
    → ((dag_runner w run (some d) db).0.success ≡ true)
      ↔ All
          (λ t.
            get t.id
              (run_tasks w run d.default_timeout out []
                (load_existing run db.attempts)
                db.attempts).0
            ≢ some failed)
          out
unfolding dag_runner
dag_runner_verdict w run d db out h =
    let s =
      (run_tasks w run d.default_timeout out [] (load_existing run db.attempts) db.attempts).0 in
    (
      λ e.
          none_failed out s
            (sym (ap (λ (o : TopoResult). (run_sorted w run d o db).0.success) h) ∙ e),
      λ a. ap (λ (o : TopoResult). (run_sorted w run d o db).0.success) h ∙ failed_none out s a,
    )
