-- ===== src/Pipeline/Runner/Rows.antt =====
-- The rows that the tasks of a run leave in `task_attempt` (apps/web/src/workflows/dag-runner.ts).
use lattik_studio.Prelude.{
  ℕ, ◌≡◌, inl, inr, refl, ◌∙◌, ◌&&◌, Option, none, some, List, [], ◌∷◌, Text, text_eq,
  text_eq_sound, text_eq_refl, if◌then◌else◌, Dict, Bool-cases, Option-cases, arith,
}
use lattik_studio.Pipeline.Topology.{TaskDef}
use lattik_studio.Pipeline.Attempts.{
  TerminalStatus, succeeded, failed, skipped, TaskStatus, running, ended, Attempt, Message, given,
  invalid_duration, base_url_missing, same_attempt, upsert_attempt, record_attempt, only_attempt,
  mark_skipped, record_workflow_error,
}
use lattik_studio.Pipeline.Runner.{
  World, Launch, launch_threw, refused, launched, Winner, done, watchdog_fired, record_outcome,
  after_race, after_launch, run_one_task, caught, blocked, run_fresh,
}
use lattik_studio.Pipeline.Outcomes.{
  TaskOutcome, good, bad, outcome_from_sandbox_event, outcome_from_missing_callback,
  watchdog_seconds,
}
use lattik_studio.Pipeline.Durations.{parse_duration_ms, effective_timeout}

-- The status in the row of a task of a run.
unfoldable pub status_of : Text → Text → List Attempt → Option TaskStatus
status_of r x [] = none
status_of r x (a ∷ rest) =
    if same_attempt r x only_attempt a then some a.status else status_of r x rest

-- Every row is the only one of its run and task, and of the only attempt.
abbrev pub Single : List Attempt → Type 0
Single [] = Unit
Single (a ∷ rest) = (a.attempt ≡ only_attempt) × (status_of a.run a.task rest ≡ none) × Single rest

-- A table after a write of one status.
abbrev pub Wrote : Text → Text → TaskStatus → List Attempt → List Attempt → Type 0
Wrote run task s rows rows' =
    ((r x : Text)
      → status_of r x rows'
        ≡ (if text_eq run r && text_eq task x then some s else status_of r x rows))
    × (Single rows → Single rows')

-- A change of a row that leaves its key.
abbrev KeepsKey : (Attempt → Attempt) → Type 0
KeepsKey change =
    (a : Attempt)
    → ((change a).run ≡ a.run) × ((change a).task ≡ a.task) × ((change a).attempt ≡ a.attempt)

module _ (new : Attempt) (change : Attempt → Attempt) (n : new.attempt ≡ only_attempt)
    (k : KeepsKey change) where
  status_of-upsert :
      (rows : List Attempt)
      → ((a : Attempt) → (change a).status ≡ new.status)
      → (r x : Text)
      → status_of r x (upsert_attempt new change rows)
        ≡ (if text_eq new.run r && text_eq new.task x then some new.status else status_of r x rows)
  unfolding upsert_attempt status_of same_attempt
  status_of-upsert [] s r x = ground (arith, n)
  status_of-upsert (a ∷ rest) s r x = ground (
    arith,
    n,
    s a,
    k a,
    status_of-upsert rest s r x,
    text_eq_sound a.run new.run,
    text_eq_sound a.task new.task,
    text_eq_sound a.run r,
    text_eq_sound a.task x,
    text_eq_sound new.run r,
    text_eq_sound new.task x,
    text_eq_refl r,
    text_eq_refl x,
  )

  upsert-Single :
      (rows : List Attempt)
      → ((a : Attempt) → (change a).status ≡ new.status)
      → Single rows
      → Single (upsert_attempt new change rows)
  unfolding upsert_attempt status_of same_attempt
  upsert-Single [] s u = (n, refl, tt)
  upsert-Single (a ∷ rest) s u = elim (Bool-cases (same_attempt new.run new.task new.attempt a)) [
    | inl e ↦ rw (e, upsert_attempt) ((k a).2 ∙ u.0, rw ((k a).0, (k a).1) u.1, u.2)
    | inr e ↦
        rw (e, upsert_attempt)
          (
            u.0,
            ground (
              arith,
              e,
              n,
              u.0,
              u.1,
              status_of-upsert rest s a.run a.task,
              text_eq_sound new.run a.run,
              text_eq_sound new.task a.task,
              text_eq_refl a.run,
              text_eq_refl a.task,
            ),
            upsert-Single rest s u.2,
          )
  ]

  upsert-Wrote :
      (rows : List Attempt)
      → ((a : Attempt) → (change a).status ≡ new.status)
      → Wrote new.run new.task new.status rows (upsert_attempt new change rows)
  upsert-Wrote rows s = (status_of-upsert rows s, upsert-Single rows s)

Wrote-Wrote :
    (run task : Text) (s s' : TaskStatus) (a b c : List Attempt)
    → Wrote run task s a b
    → Wrote run task s' b c
    → Wrote run task s' a c
Wrote-Wrote run task s s' a b c h k = (λ r x. ground (arith, h.0 r x, k.0 r x), λ u. k.1 (h.1 u))

record-Wrote :
    (now : ℕ) (run task : Text) (s : TaskStatus) (e : Option Message) (rows : List Attempt)
    → Wrote run task s rows (record_attempt now run task only_attempt s e rows)
unfolding record_attempt
record-Wrote now run task s e rows =
    upsert-Wrote _ _ refl (λ a. (refl, refl, refl)) rows (λ a. refl)

skipped-Wrote :
    (now : ℕ) (run task : Text) (rows : List Attempt)
    → Wrote run task (ended skipped) rows (mark_skipped now run task rows)
unfolding mark_skipped
skipped-Wrote now run task rows = upsert-Wrote _ _ refl (λ a. (refl, refl, refl)) rows (λ a. refl)

error-Wrote :
    (now : ℕ) (run task : Text) (m : Message) (rows : List Attempt)
    → Wrote run task (ended failed) rows (record_workflow_error now run task m rows)
unfolding record_workflow_error
error-Wrote now run task m rows = upsert-Wrote _ _ refl (λ a. (refl, refl, refl)) rows (λ a. refl)

module _ (w : World) (run : Text) (default : Text) where
  -- The task writes the status that it returns.
  abbrev pub Settles : TaskDef → List Attempt → TerminalStatus × List Attempt → Type 0
  Settles t rows r = Wrote run t.id (ended r.0) rows r.1

  outcome-Settles :
      (t : TaskDef) (o : TaskOutcome) (rows : List Attempt)
      → Settles t rows (caught w run default t (record_outcome w run default t o rows))
  unfolding caught record_outcome
  outcome-Settles t good rows = record-Wrote w.now run t.id (ended succeeded) none rows
  outcome-Settles t (bad m) rows = record-Wrote w.now run t.id (ended failed) (some m) rows

  race-Settles :
      (t : TaskDef) (ms : ℕ) (v : Winner) (rows : List Attempt)
      → Settles t rows (caught w run default t (after_race w run default t ms v rows))
  unfolding after_race
  race-Settles t ms (done ev) rows = outcome-Settles t (outcome_from_sandbox_event ev) rows
  race-Settles t ms (watchdog_fired m) rows =
      outcome-Settles t (outcome_from_missing_callback m (watchdog_seconds ms)) rows

  launch-Settles :
      (t : TaskDef) (ms : ℕ) (l : Launch) (rows : List Attempt)
      → Settles t rows (caught w run default t (after_launch w run default t ms l rows))
  unfolding after_launch caught
  launch-Settles t ms (launch_threw m) rows = error-Wrote w.now run t.id (given m) rows
  launch-Settles t ms (refused m) rows = outcome-Settles t (bad (given m)) rows
  launch-Settles t ms launched rows = race-Settles t ms (w.winner t) rows

  one_task-Settles :
      (t : TaskDef) (rows : List Attempt)
      → Settles t rows (caught w run default t (run_one_task w run default t rows))
  unfolding run_one_task caught
  one_task-Settles t rows = elim (Option-cases (parse_duration_ms (effective_timeout default t))) [
    | inl e ↦
        rw (e, run_one_task)
          (error-Wrote w.now run t.id (invalid_duration (effective_timeout default t)) rows)
    | inr (ms, e) ↦ elim (Bool-cases w.has_base_url) [
      | inl f ↦
          rw (e, f, run_one_task)
            (Wrote-Wrote run t.id running _ rows _ _ (record-Wrote w.now run t.id running none rows)
              (launch-Settles t ms (w.launch t ms) _))
      | inr f ↦ rw (e, f, run_one_task) (error-Wrote w.now run t.id base_url_missing rows)
    ]
  ]

  pub fresh-Settles :
      (t : TaskDef) (s : Dict TerminalStatus) (rows : List Attempt)
      → Settles t rows (run_fresh w run default t s rows)
  unfolding run_fresh
  fresh-Settles t s rows = elim (Bool-cases (blocked t.depends_on s)) [
    | inl e ↦ rw (e, run_fresh) (skipped-Wrote w.now run t.id rows)
    | inr e ↦ rw (e, run_fresh) (one_task-Settles t rows)
  ]
