-- ===== src/Pipeline/Runner/Statuses.antt =====
-- The statuses that a run of the tasks ends with (apps/web/src/workflows/dag-runner.ts).
use lattik_studio.Prelude.{
  ℕ, ◌≡◌, inl, inr, refl, sym, ap, ◌∙◌, true, false, some, List, [], ◌∷◌, ◌++◌, Text, text_eq_sound,
  text_eq_refl, mem_text, Dict, get, put, get-put, All, All-Member, All-of-Member, Bool-cases,
  Option-cases, arith,
}
use lattik_studio.Pipeline.Topology.{TaskDef, sorted, topo_sort}
use lattik_studio.Pipeline.Topology.Count.{mem_text-concat}
use lattik_studio.Pipeline.Topology.Edges.{ids_of, DistinctIds}
use lattik_studio.Pipeline.Topology.Order.{InOrder}
use lattik_studio.Pipeline.Topology.Promise.{topo_sort_sound, topo_sort-DistinctIds}
use lattik_studio.Pipeline.Attempts.{TerminalStatus, Attempt, given}
use lattik_studio.Pipeline.Runner.{
  World, Launch, launch_threw, refused, launched, Winner, done, watchdog_fired, record_outcome,
  after_race, after_launch, run_one_task, caught, blocked, run_fresh, earned, run_task_with_deps,
  run_tasks,
}
use lattik_studio.Pipeline.Outcomes.{
  TaskOutcome, good, bad, outcome_from_sandbox_event, outcome_from_missing_callback,
  watchdog_seconds,
}
use lattik_studio.Pipeline.Durations.{parse_duration_ms, effective_timeout}

pub blocked_same :
    (ds : List Text) (s s' : Dict TerminalStatus)
    → All (λ d. get d s ≡ get d s') ds
    → blocked ds s ≡ blocked ds s'
unfolding blocked
blocked_same [] s s' h = refl
blocked_same (d ∷ ds) s s' h = rw (h.0, blocked_same ds s s' h.1) refl

module _ (w : World) (run : Text) (default : Text) where
  -- The status is that of the same task on another table.
  outcome_status :
      (t : TaskDef) (o : TaskOutcome) (rows rows' : List Attempt)
      → (caught w run default t (record_outcome w run default t o rows)).0
        ≡ (caught w run default t (record_outcome w run default t o rows')).0
  unfolding caught record_outcome
  outcome_status t good rows rows' = refl
  outcome_status t (bad m) rows rows' = refl

  race_status :
      (t : TaskDef) (ms : ℕ) (v : Winner) (rows rows' : List Attempt)
      → (caught w run default t (after_race w run default t ms v rows)).0
        ≡ (caught w run default t (after_race w run default t ms v rows')).0
  unfolding after_race
  race_status t ms (done ev) rows rows' =
      outcome_status t (outcome_from_sandbox_event ev) rows rows'
  race_status t ms (watchdog_fired m) rows rows' =
      outcome_status t (outcome_from_missing_callback m (watchdog_seconds ms)) rows rows'

  launch_status :
      (t : TaskDef) (ms : ℕ) (l : Launch) (rows rows' : List Attempt)
      → (caught w run default t (after_launch w run default t ms l rows)).0
        ≡ (caught w run default t (after_launch w run default t ms l rows')).0
  unfolding after_launch caught
  launch_status t ms (launch_threw m) rows rows' = refl
  launch_status t ms (refused m) rows rows' = outcome_status t (bad (given m)) rows rows'
  launch_status t ms launched rows rows' = race_status t ms (w.winner t) rows rows'

  one_task_status :
      (t : TaskDef) (rows rows' : List Attempt)
      → (caught w run default t (run_one_task w run default t rows)).0
        ≡ (caught w run default t (run_one_task w run default t rows')).0
  unfolding run_one_task caught
  one_task_status t rows rows' =
      elim (Option-cases (parse_duration_ms (effective_timeout default t))) [
        | inl e ↦ rw (e, run_one_task) refl
        | inr (ms, e) ↦ elim (Bool-cases w.has_base_url) [
          | inl f ↦ rw (e, f, run_one_task) (launch_status t ms (w.launch t ms) _ _)
          | inr f ↦ rw (e, f, run_one_task) refl
        ]
      ]

  -- The status depends on those of the dependencies and on the earned one only.
  task_status :
      (t : TaskDef) (s s' priors : Dict TerminalStatus) (rows rows' : List Attempt)
      → All (λ d. get d s ≡ get d s') t.depends_on
      → (run_task_with_deps w run default t s priors rows).0
        ≡ (run_task_with_deps w run default t s' priors rows').0
  unfolding run_task_with_deps run_fresh
  task_status t s s' priors rows rows' h = elim (Option-cases (earned (get t.id priors))) [
    | inr (p, e) ↦ rw (e, run_task_with_deps) refl
    | inl e ↦ elim (Bool-cases (blocked t.depends_on s)) [
      | inl f ↦
          rw (e, run_task_with_deps, run_fresh, f, sym (blocked_same t.depends_on s s' h) ∙ f) refl
      | inr f ↦
          rw (e, run_task_with_deps, run_fresh, f, sym (blocked_same t.depends_on s s' h) ∙ f)
            (one_task_status t rows rows')
    ]
  ]

  pub later_status :
      (x : Text) (ts : List TaskDef) (s priors : Dict TerminalStatus) (rows : List Attempt)
      → mem_text x (ids_of ts) ≡ false
      → get x (run_tasks w run default ts s priors rows).0 ≡ get x s
  unfolding run_tasks mem_text
  later_status x [] s priors rows h = refl
  later_status x (t ∷ ts) s priors rows h =
      let r = run_task_with_deps w run default t s priors rows in
      ground (
        arith,
        h,
        later_status x ts (put t.id r.0 s) priors r.1,
        get-put x t.id r.0 s,
        text_eq_sound t.id x,
        text_eq_refl x,
      )

  -- The status of every task is what the task gives on the final statuses.
  abbrev pub Solved : Dict TerminalStatus → Dict TerminalStatus → TaskDef → Type 0
  Solved priors s t = get t.id s ≡ some (run_task_with_deps w run default t s priors []).0

  run_tasks_lem :
      (before : List Text) (ts : List TaskDef) (s priors : Dict TerminalStatus)
      (rows : List Attempt)
      → InOrder before ts
      → DistinctIds ts
      → ((d : Text) → mem_text d before ≡ true → mem_text d (ids_of ts) ≡ false)
      → All (Solved priors (run_tasks w run default ts s priors rows).0) ts
  unfolding run_tasks mem_text
  run_tasks_lem before [] s priors rows o u f = tt
  run_tasks_lem before (t ∷ ts) s priors rows o u f =
      let r = run_task_with_deps w run default t s priors rows in
      let s' = put t.id r.0 s in
      (
        later_status t.id ts s' priors r.1 u.0
            ∙ get-put t.id t.id r.0 s
            ∙ rw (text_eq_refl t.id) (
                ap some (
                  task_status t s (run_tasks w run default ts s' priors r.1).0 priors rows [] (
                    All-of-Member
                      (λ d. get d s ≡ get d (run_tasks w run default ts s' priors r.1).0)
                      t.depends_on
                      (λ d m.
                        let k = All-Member (λ c. mem_text c before ≡ true) o.0 m in
                        sym (later_status d (t ∷ ts) s priors rows (f d k)))))),
        run_tasks_lem (before ++ t.id ∷ []) ts s' priors r.1 o.1 u.1 (λ d k.
            ground (arith, k, f d, mem_text-concat d t.id before, u.0, text_eq_sound d t.id)),
      )

-- For pipelines whose tasks have distinct ids and that the sort accepts: when all tasks are run,
-- each has the status that it gives by itself on the final statuses: the earned one, `skipped` if
-- a dependency has failed or was skipped, and else what its own sandbox gives.
pub run_tasks-Solved :
    (w : World) (run default : Text) (ts out : List TaskDef) (priors : Dict TerminalStatus)
    (rows : List Attempt)
    → DistinctIds ts
    → topo_sort ts ≡ sorted out
    → All (λ t. Solved w run default priors (run_tasks w run default out [] priors rows).0 t) out
unfolding mem_text
run_tasks-Solved w run default ts out priors rows u h =
    run_tasks_lem w run default [] out [] priors rows (topo_sort_sound ts out u h).0
      (topo_sort-DistinctIds ts out u h) (λ d k. absurd (ground (arith, k)))
