-- ===== src/Pipeline/Runner/Loading.antt =====
-- `loadExistingTerminalStatuses`, and an execution that starts from what it loads
-- (apps/web/src/workflows/dag-runner.ts).
use lattik_studio.Prelude.{
  ℕ, ◌≡◌, ◌≢◌, ◌⊎◌, inl, inr, refl, sym, ap, ◌∙◌, Bool, true, false, ◌&&◌, Option, none, some, List,
  [], ◌∷◌, Text, text_eq, text_eq_sound, if◌then◌else◌, Dict, get, get-put, All, All-of-Member,
  Member, Bool-cases, arith, ◌==◌,
}
use lattik_studio.Pipeline.Topology.{TaskDef, sorted, topo_sort}
use lattik_studio.Pipeline.Topology.Edges.{DistinctIds}
use lattik_studio.Pipeline.Topology.Promise.{topo_sort-DistinctIds}
use lattik_studio.Pipeline.Attempts.{
  TerminalStatus, succeeded, failed, skipped, TaskStatus, queued, running, ended, Attempt,
  same_attempt, only_attempt, load_step, load_rows, load_existing,
}
use lattik_studio.Pipeline.Runner.{World, earned, run_tasks}
use lattik_studio.Pipeline.Runner.Rows.{status_of, Single}
use lattik_studio.Pipeline.Runner.Table.{row_after, run_tasks_rows, run_tasks-Single}
use lattik_studio.Pipeline.Runner.Again.{run_again_same}

abbrev pub ended_of : Option TaskStatus → Option TerminalStatus
ended_of none = none
ended_of (some queued) = none
ended_of (some running) = none
ended_of (some (ended s)) = some s

abbrev or_else : Option TerminalStatus → Option TerminalStatus → Option TerminalStatus
or_else none o = o
or_else (some s) o = some s

-- The two maps have the same tasks, each from an only attempt.
abbrev Paired : Option TerminalStatus → Option ℕ → Type 0
Paired o n = ((o ≡ none) × (n ≡ none)) ⊎ ((o ≢ none) × (n ≡ some only_attempt))

-- One row of the run.
load_step_lem :
    (a : Attempt) (s : TaskStatus) (out : Dict TerminalStatus) (maxes : Dict ℕ) (x : Text)
    → a.attempt ≡ only_attempt
    → Paired (get a.task out) (get a.task maxes)
    → Paired (get x out) (get x maxes)
    → let next = load_step a s out maxes in
      Paired (get x next.0) (get x next.1)
      × (get x next.0 ≡ or_else (get x out) (if text_eq a.task x then ended_of (some s) else none))
load_step_lem a queued out maxes x n k h = (h, ground (arith, h))
load_step_lem a running out maxes x n k h = (h, ground (arith, h))
load_step_lem a (ended s) out maxes x n k h = ground (
  arith,
  n,
  k,
  h,
  get-put x a.task s out,
  get-put x a.task a.attempt maxes,
  text_eq_sound a.task x,
)

join_status :
    (o : Option TerminalStatus) (b : Bool) (s p : Option TaskStatus)
    → (b ≡ true → p ≡ none)
    → or_else (or_else o (if b then ended_of s else none)) (ended_of p)
      ≡ or_else o (ended_of (if b then s else p))
join_status (some v) b s p h = refl
join_status none false s p h = refl
join_status none true s p h = rw (h refl) (or_else-none (ended_of s))
  where
    or_else-none : (o : Option TerminalStatus) → or_else o none ≡ o
    or_else-none none = refl
    or_else-none (some v) = refl

load_rows_lem :
    (r : Text) (rows : List Attempt) (out : Dict TerminalStatus) (maxes : Dict ℕ) (x : Text)
    → Single rows
    → ((y : Text) → Paired (get y out) (get y maxes))
    → get x (load_rows r rows out maxes) ≡ or_else (get x out) (ended_of (status_of r x rows))
unfolding load_rows status_of same_attempt
load_rows_lem r [] out maxes x u h = same (get x out)
  where
    same : (o : Option TerminalStatus) → o ≡ or_else o none
    same none = refl
    same (some v) = refl
load_rows_lem r (a ∷ rest) out maxes x u h = elim (Bool-cases (text_eq a.run r)) [
  | inr e ↦ rw (e, load_rows) (load_rows_lem r rest out maxes x u.2 h)
  | inl e ↦
      let next = load_step a a.status out maxes in
      let step = λ (y : Text). load_step_lem a a.status out maxes y u.0 (h a.task) (h y) in
      rw (e, load_rows)
        (load_rows_lem r rest next.0 next.1 x u.2 (λ y. (step y).0)
          ∙ ap (λ (o : Option TerminalStatus). or_else o (ended_of (status_of r x rest))) (step x).1
          ∙ join_status (get x out) (text_eq a.task x) (some a.status) (status_of r x rest) (λ f.
            ap (λ (y : Text). status_of y x rest) (sym (text_eq_sound a.run r e))
            ∙ ap (λ (y : Text). status_of a.run y rest) (sym (text_eq_sound a.task x f))
            ∙ u.1)
          ∙ ap (λ (o : Option TaskStatus). or_else (get x out) (ended_of o))
              (tested (text_eq a.task x) a.attempt u.0 (some a.status) (status_of r x rest)))
]
  where
    tested :
        (b : Bool) (n : ℕ)
        → n ≡ only_attempt
        → (s p : Option TaskStatus)
        → (if b then s else p) ≡ (if b && (n == only_attempt) then s else p)
    tested b n h s p = ground (arith, h)

-- In a table whose rows are of the only attempt, one for each run and task, every task has the
-- status loaded that its row of the run has, if that has ended, and none else.
pub load_existing_lem :
    (r : Text) (rows : List Attempt) (x : Text)
    → Single rows
    → get x (load_existing r rows) ≡ ended_of (status_of r x rows)
unfolding load_existing get
load_existing_lem r rows x u = load_rows_lem r rows [] [] x u (λ y. inl (refl, refl))

earned_loaded :
    (o : Option TerminalStatus) (v : TerminalStatus) (p : Option TaskStatus)
    → o ≡ ended_of p
    → ((q : TerminalStatus) → earned o ≡ some q → v ≡ q)
    → ended_of (row_after (earned o) v p) ≡ some v
earned_loaded none v p h k = refl
earned_loaded (some succeeded) v p h k = sym h ∙ ap some (sym (k succeeded refl))
earned_loaded (some failed) v p h k = sym h ∙ ap some (sym (k failed refl))
earned_loaded (some skipped) v p h k = refl

-- What an execution that starts from the statuses of the table leaves there.
loaded_same :
    (w : World) (run default : Text) (out : List TaskDef) (rows : List Attempt) (t : TaskDef)
    → Single rows
    → DistinctIds out
    → Member t out
    → let res = run_tasks w run default out [] (load_existing run rows) rows in
      get t.id (load_existing run res.1) ≡ get t.id res.0
loaded_same w run default out rows t u d m =
    let priors = load_existing run rows in
    let (v, e, f, g) = (run_tasks_rows w run default out priors rows d).0 t m in
    load_existing_lem run (run_tasks w run default out [] priors rows).1 t.id
      (run_tasks-Single w run default out [] priors rows u)
    ∙ ap ended_of f
    ∙ earned_loaded (get t.id priors) v (status_of run t.id rows)
        (load_existing_lem run rows t.id u) g
    ∙ sym e

-- For pipelines whose tasks have distinct ids and that the sort accepts, and a table whose rows are
-- of the only attempt, one for each run and task: an execution that starts from the statuses of the
-- table, and a second one that starts from those of the table the first leaves, end with the same
-- status for every task, whatever the sandboxes of the second would give.
pub respawn_same :
    (w w' : World) (run default : Text) (ts out : List TaskDef) (rows : List Attempt)
    → DistinctIds ts
    → topo_sort ts ≡ sorted out
    → Single rows
    → let first = run_tasks w run default out [] (load_existing run rows) rows in
      let second = run_tasks w' run default out [] (load_existing run first.1) first.1 in
      All (λ t. get t.id second.0 ≡ get t.id first.0) out
respawn_same w w' run default ts out rows d h u =
    let first = run_tasks w run default out [] (load_existing run rows) rows in
    run_again_same w w' run default ts out (load_existing run rows) (load_existing run first.1) rows
      first.1 d h
      (All-of-Member (λ t. get t.id (load_existing run first.1) ≡ get t.id first.0) out
        (λ t m. loaded_same w run default out rows t u (topo_sort-DistinctIds ts out d h) m))
