-- ===== src/Pipeline/Runner/Table.antt =====
-- The table after a run (apps/web/src/workflows/dag-runner.ts).
use lattik_studio.Prelude.{
  ◌≡◌, inl, inr, refl, ap, ◌∙◌, Bool, true, false, ◌&&◌, Option, none, some, List, [], ◌∷◌, Text,
  text_eq, text_eq_sound, text_eq_refl, mem_text, if◌then◌else◌, Dict, get, put, get-put, Member,
  here, there, Option-cases, arith,
}
use lattik_studio.Pipeline.Topology.{TaskDef}
use lattik_studio.Pipeline.Topology.Edges.{ids_of, DistinctIds, other_id}
use lattik_studio.Pipeline.Attempts.{TerminalStatus, TaskStatus, ended, Attempt}
use lattik_studio.Pipeline.Runner.{World, earned, run_task_with_deps, run_tasks}
use lattik_studio.Pipeline.Runner.Statuses.{later_status}
use lattik_studio.Pipeline.Runner.Rows.{status_of, Single, fresh-Settles}

-- The status in the row of a task behind a run that gives it the status `v`.
abbrev pub row_after :
    Option TerminalStatus → TerminalStatus → Option TaskStatus → Option TaskStatus
row_after none v before = some (ended v)
row_after (some p) v before = before

module _ (w : World) (run : Text) (default : Text) where
  task_rows :
      (t : TaskDef) (s priors : Dict TerminalStatus) (rows : List Attempt) (r x : Text)
      → let res = run_task_with_deps w run default t s priors rows in
        status_of r x res.1 ≡ (
          if text_eq run r && text_eq t.id x
          then row_after (earned (get t.id priors)) res.0 (status_of r x rows)
          else status_of r x rows)
  unfolding run_task_with_deps
  task_rows t s priors rows r x = elim (Option-cases (earned (get t.id priors))) [
    | inl e ↦ rw (e, run_task_with_deps) ((fresh-Settles w run default t s rows).0 r x)
    | inr (p, e) ↦ rw (e, run_task_with_deps) (same (text_eq run r && text_eq t.id x))
  ]
    where
      same :
          (b : Bool) → status_of r x rows ≡ (if b then status_of r x rows else status_of r x rows)
      same true = refl
      same false = refl

  other_rows :
      (ts : List TaskDef) (s priors : Dict TerminalStatus) (rows : List Attempt) (r x : Text)
      → (text_eq run r && mem_text x (ids_of ts)) ≡ false
      → status_of r x (run_tasks w run default ts s priors rows).1 ≡ status_of r x rows
  unfolding run_tasks mem_text
  other_rows [] s priors rows r x h = refl
  other_rows (t ∷ ts) s priors rows r x h =
      let res = run_task_with_deps w run default t s priors rows in
      other_rows ts (put t.id res.0 s) priors res.1 r x (ground (arith, h))
      ∙ task_rows t s priors rows r x
      ∙ ground (arith, h, text_eq_sound t.id x, text_eq_refl x)

  own_rows :
      (ts : List TaskDef) (s priors : Dict TerminalStatus) (rows : List Attempt) (t : TaskDef)
      → DistinctIds ts
      → Member t ts
      → let res = run_tasks w run default ts s priors rows in
        (v : TerminalStatus) × (get t.id res.0 ≡ some v)
        × (status_of run t.id res.1
            ≡ row_after (earned (get t.id priors)) v (status_of run t.id rows))
        × ((p : TerminalStatus) → earned (get t.id priors) ≡ some p → v ≡ p)
  unfolding run_tasks run_task_with_deps
  own_rows [] s priors rows t u m = elim m [ ]
  own_rows (v ∷ ts) s priors rows t u here =
      let res = run_task_with_deps w run default t s priors rows in
      (
        res.0,
        later_status w run default t.id ts (put t.id res.0 s) priors res.1 u.0
            ∙ get-put t.id t.id res.0 s
            ∙ rw (text_eq_refl t.id) refl,
        other_rows ts (put t.id res.0 s) priors res.1 run t.id (rw (text_eq_refl run, u.0) refl)
            ∙ task_rows t s priors rows run t.id
            ∙ rw (text_eq_refl run, text_eq_refl t.id) refl,
        λ p e. rw (e, run_task_with_deps) refl,
      )
  own_rows (v ∷ ts) s priors rows t u (there m) =
      let res = run_task_with_deps w run default v s priors rows in
      let (z, e, f, g) = own_rows ts (put v.id res.0 s) priors res.1 t u.1 m in
      (
        z,
        e,
        f
            ∙ ap (row_after (earned (get t.id priors)) z) (
                task_rows v s priors rows run t.id
                ∙ rw (text_eq_refl run, other_id t v ts u.0 m) refl),
        g,
      )

-- For tasks with distinct ids, when all have been run: a task has a status, and if it had not
-- earned one before, then its row has this status, and else its status is the earned one and its
-- row has the status it had; the rows of other runs and of other tasks have the statuses they had.
pub run_tasks_rows :
    (w : World) (run default : Text) (ts : List TaskDef) (priors : Dict TerminalStatus)
    (rows : List Attempt)
    → DistinctIds ts
    → let res = run_tasks w run default ts [] priors rows in
      ((t : TaskDef)
        → Member t ts
        → (v : TerminalStatus) × (get t.id res.0 ≡ some v)
          × (status_of run t.id res.1
              ≡ row_after (earned (get t.id priors)) v (status_of run t.id rows))
          × ((p : TerminalStatus) → earned (get t.id priors) ≡ some p → v ≡ p))
      × ((r x : Text)
          → (text_eq run r && mem_text x (ids_of ts)) ≡ false
          → status_of r x res.1 ≡ status_of r x rows)
run_tasks_rows w run default ts priors rows u = (
  λ t m. own_rows w run default ts [] priors rows t u m,
  λ r x h. other_rows w run default ts [] priors rows r x h,
)

run_task-Single :
    (w : World) (run default : Text) (t : TaskDef) (s priors : Dict TerminalStatus)
    (rows : List Attempt)
    → Single rows
    → Single (run_task_with_deps w run default t s priors rows).1
unfolding run_task_with_deps
run_task-Single w run default t s priors rows u = elim (Option-cases (earned (get t.id priors))) [
  | inl e ↦ rw (e, run_task_with_deps) ((fresh-Settles w run default t s rows).1 u)
  | inr (p, e) ↦ rw (e, run_task_with_deps) u
]

pub run_tasks-Single :
    (w : World) (run default : Text) (ts : List TaskDef) (s priors : Dict TerminalStatus)
    (rows : List Attempt)
    → Single rows
    → Single (run_tasks w run default ts s priors rows).1
unfolding run_tasks
run_tasks-Single w run default [] s priors rows u = u
run_tasks-Single w run default (t ∷ ts) s priors rows u =
    run_tasks-Single w run default ts _ priors _ (run_task-Single w run default t s priors rows u)
