-- ===== src/Pipeline/Runner/Safety.antt =====
-- What the final statuses of a run promise of a task that succeeded and of those it depends on
-- (apps/web/src/workflows/dag-runner.ts).
use lattik_studio.Prelude.{
  ℕ, ◌≡◌, ◌≢◌, ◌⊎◌, inl, inr, refl, sym, ap, ◌∙◌, subst, true, false, Option, none, some, List, [],
  ◌∷◌, ◌++◌, Text, mem_text, Dict, get, All, All-Member, All-of-Member, Member, here, there,
  Bool-cases, Option-cases, arith, append_assoc,
}
use lattik_studio.Pipeline.Topology.{TaskDef, sorted, topo_sort}
use lattik_studio.Pipeline.Topology.Edges.{ids_of, DistinctIds}
use lattik_studio.Pipeline.Topology.Order.{InOrder}
use lattik_studio.Pipeline.Topology.Laws.{task_of_occ, mem_text-occ}
use lattik_studio.Pipeline.Topology.Promise.{topo_sort_sound}
use lattik_studio.Pipeline.Attempts.{TerminalStatus, succeeded, failed, skipped, Attempt, given}
use lattik_studio.Pipeline.Runner.{
  World, Launch, launch_threw, refused, launched, Winner, done, watchdog_fired, record_outcome,
  after_race, after_launch, run_one_task, caught, blocked, run_fresh, earned, run_task_with_deps,
  run_tasks,
}
use lattik_studio.Pipeline.Outcomes.{TaskOutcome, good, bad}
use lattik_studio.Pipeline.Durations.{parse_duration_ms, effective_timeout}
use lattik_studio.Pipeline.Runner.Statuses.{Solved, run_tasks-Solved}

pub TerminalStatus-cases : (s : TerminalStatus) → (s ≡ succeeded) ⊎ (s ≡ failed) ⊎ (s ≡ skipped)
TerminalStatus-cases succeeded = inl refl
TerminalStatus-cases failed = inr (inl refl)
TerminalStatus-cases skipped = inr (inr refl)

pub earned-skipped : (o : Option TerminalStatus) → earned o ≢ some skipped
earned-skipped none h = cc
earned-skipped (some succeeded) h = cc
earned-skipped (some failed) h = cc
earned-skipped (some skipped) h = cc

earned-some : (o : Option TerminalStatus) (s : TerminalStatus) → earned o ≡ some s → o ≡ some s
earned-some none s h = cc
earned-some (some succeeded) s h = h
earned-some (some failed) s h = h
earned-some (some skipped) s h = cc

module _ (w : World) (run default : Text) where
  outcome-skipped :
      (t : TaskDef) (o : TaskOutcome) (rows : List Attempt)
      → (caught w run default t (record_outcome w run default t o rows)).0 ≢ skipped
  unfolding caught record_outcome
  outcome-skipped t good rows h = cc
  outcome-skipped t (bad m) rows h = cc

  race-skipped :
      (t : TaskDef) (ms : ℕ) (v : Winner) (rows : List Attempt)
      → (caught w run default t (after_race w run default t ms v rows)).0 ≢ skipped
  unfolding after_race
  race-skipped t ms (done ev) rows h = outcome-skipped t _ rows h
  race-skipped t ms (watchdog_fired m) rows h = outcome-skipped t _ rows h

  launch-skipped :
      (t : TaskDef) (ms : ℕ) (l : Launch) (rows : List Attempt)
      → (caught w run default t (after_launch w run default t ms l rows)).0 ≢ skipped
  unfolding after_launch caught
  launch-skipped t ms (launch_threw m) rows h = cc
  launch-skipped t ms (refused m) rows h = outcome-skipped t (bad (given m)) rows h
  launch-skipped t ms launched rows h = race-skipped t ms (w.winner t) rows h

  pub one_task-skipped :
      (t : TaskDef) (rows : List Attempt)
      → (caught w run default t (run_one_task w run default t rows)).0 ≢ skipped
  unfolding run_one_task caught
  one_task-skipped t rows h =
      elim (Option-cases (parse_duration_ms (effective_timeout default t))) [
        | inl e ↦ failed-ne-skipped (rw (e, run_one_task) at h)
        | inr (ms, e) ↦ elim (Bool-cases w.has_base_url) [
          | inl f ↦ launch-skipped t ms (w.launch t ms) _ (rw (e, f, run_one_task) at h)
          | inr f ↦ failed-ne-skipped (rw (e, f, run_one_task) at h)
        ]
      ]
    where
      failed-ne-skipped : failed ≢ skipped
      failed-ne-skipped k = cc

  -- A task that is skipped has a bad dependency.
  pub skipped-blocked :
      (t : TaskDef) (s priors : Dict TerminalStatus)
      → (run_task_with_deps w run default t s priors []).0 ≡ skipped
      → blocked t.depends_on s ≡ true
  unfolding run_task_with_deps run_fresh
  skipped-blocked t s priors h = elim (Option-cases (earned (get t.id priors))) [
    | inr (p, e) ↦
        absurd (earned-skipped (get t.id priors) (e ∙ ap some (rw (e, run_task_with_deps) at h)))
    | inl e ↦ elim (Bool-cases (blocked t.depends_on s)) [
      | inl f ↦ f
      | inr f ↦ absurd (one_task-skipped t [] (rw (e, run_task_with_deps, run_fresh, f) at h))
    ]
  ]

  -- A task that succeeds without having earned it has no bad dependency.
  succeeded-blocked :
      (t : TaskDef) (s priors : Dict TerminalStatus)
      → get t.id priors ≢ some succeeded
      → (run_task_with_deps w run default t s priors []).0 ≡ succeeded
      → blocked t.depends_on s ≡ false
  unfolding run_task_with_deps run_fresh
  succeeded-blocked t s priors n h = elim (Option-cases (earned (get t.id priors))) [
    | inr (p, e) ↦ absurd (
        n (earned-some (get t.id priors) succeeded (e ∙ ap some (rw (e, run_task_with_deps) at h))))
    | inl e ↦ elim (Bool-cases (blocked t.depends_on s)) [
      | inr f ↦ f
      | inl f ↦ absurd (skipped-ne-succeeded (rw (e, run_task_with_deps, run_fresh, f) at h))
    ]
  ]
    where
      skipped-ne-succeeded : skipped ≢ succeeded
      skipped-ne-succeeded k = cc

succeeded_deps :
    (ds : List Text) (s : Dict TerminalStatus)
    → blocked ds s ≡ false
    → All (λ d. get d s ≢ none) ds
    → All (λ d. get d s ≡ some succeeded) ds
unfolding blocked
succeeded_deps [] s h k = tt
succeeded_deps (d ∷ ds) s h k = (
  elim (Option-cases (get d s)) [
    | inl e ↦ absurd (k.0 e)
    | inr (v, e) ↦ elim (TerminalStatus-cases v) [
      | inl f ↦ e ∙ ap some f
      | inr (inl f) ↦ absurd (ground (arith, h, e, f))
      | inr (inr f) ↦ absurd (ground (arith, h, e, f))
    ]
  ],
  succeeded_deps ds s (ground (arith, h)) k.1,
)

mem_text-append :
    (d : Text) (xs ys : List Text) → mem_text d xs ≡ true → mem_text d (xs ++ ys) ≡ true
unfolding mem_text
mem_text-append d [] ys h = absurd (ground (arith, h))
mem_text-append d (x ∷ xs) ys h = ground (arith, h, mem_text-append d xs ys)

-- The dependencies of a task of the list stand in the list.
pub deps_of :
    (before : List Text) (ts : List TaskDef) (t : TaskDef)
    → InOrder before ts
    → Member t ts
    → All (λ d. mem_text d (before ++ ids_of ts) ≡ true) t.depends_on
deps_of before [] t o m = elim m [ ]
deps_of before (u ∷ ts) t o here = All-of-Member _ u.depends_on (λ d k.
    mem_text-append d before (ids_of (u ∷ ts)) (All-Member (λ c. mem_text c before ≡ true) o.0 k))
deps_of before (u ∷ ts) t o (there m) =
    subst (λ (s : List Text). All (λ d. mem_text d s ≡ true) t.depends_on)
      (append_assoc before (u.id ∷ []) (ids_of ts)) (deps_of (before ++ u.id ∷ []) ts t o.1 m)

some-ne-none : {v : TerminalStatus} → some v ≢ none
some-ne-none h = cc

-- For pipelines whose tasks have distinct ids and that the sort accepts: a task whose final status
-- is `succeeded`, and that had not succeeded in an earlier execution, depends on tasks only whose
-- final status is `succeeded`.
pub succeeded_after_deps :
    (w : World) (run default : Text) (ts out : List TaskDef) (priors : Dict TerminalStatus)
    (rows : List Attempt) (t : TaskDef)
    → DistinctIds ts
    → topo_sort ts ≡ sorted out
    → Member t out
    → get t.id priors ≢ some succeeded
    → get t.id (run_tasks w run default out [] priors rows).0 ≡ some succeeded
    → All (λ d. get d (run_tasks w run default out [] priors rows).0 ≡ some succeeded) t.depends_on
succeeded_after_deps w run default ts out priors rows t u h m n e =
    let s = (run_tasks w run default out [] priors rows).0 in
    let all = run_tasks-Solved w run default ts out priors rows u h in
    let solved = All-Member (Solved w run default priors s) all m in
    succeeded_deps t.depends_on s (succeeded-blocked w run default t s priors n (cc (solved, e))) (
      All-of-Member (λ d. get d s ≢ none) t.depends_on
        (λ d k q.
          let known =
            All-Member (λ c. mem_text c (ids_of out) ≡ true)
              (deps_of [] out t (topo_sort_sound ts out u h).0 m) k in
          let (v, l, f) = task_of_occ d out (mem_text-occ d (ids_of out) known) in
          some-ne-none (
            sym (All-Member (Solved w run default priors s) all l)
            ∙ ap (λ (y : Text). get y s) f
            ∙ q)))
