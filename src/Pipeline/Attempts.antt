-- ===== src/Pipeline/Attempts.antt =====
-- The rows of `task_attempt` (packages/db-schema/src/index.ts, `taskAttempts`) and the queries of
-- apps/web/src/workflows/dag-runner.ts and dag-task-steps.ts on them.
use lattik_studio.Prelude.{
  ℕ, Bool, true, Option, none, some, List, [], ◌∷◌, Text, text_eq, ◌==◌, ltb, if◌then◌else◌, ◌&&◌,
  Dict, get, put, take,
}

pub data TerminalStatus : Type 0 where
  succeeded : TerminalStatus
  failed : TerminalStatus
  skipped : TerminalStatus

pub data TaskStatus : Type 0 where
  queued : TaskStatus
  running : TaskStatus
  ended : TerminalStatus → TaskStatus

-- The messages that the code composes, with the values put into each.
pub data Message : Type 0 where
  given : Text → Message
  runner_exit : ℕ → Message
  runner_exited_without_callback : ℕ → Message
  no_callback_within : ℕ → Message
  workflow_error : Message → Message
  invalid_duration : Text → Message
  base_url_missing : Message

pub record Attempt : Type 0 where
  pub run : Text
  pub task : Text
  pub attempt : ℕ
  pub status : TaskStatus
  pub started_at : Option ℕ
  pub finished_at : Option ℕ
  pub error_message : Option Message

unfoldable pub same_attempt : Text → Text → ℕ → Attempt → Bool
same_attempt r t n a = text_eq a.run r && (text_eq a.task t && (a.attempt == n))

-- `insert ... on conflict do update` on the unique key of the table.
unfoldable pub upsert_attempt : Attempt → (Attempt → Attempt) → List Attempt → List Attempt
upsert_attempt new change [] = new ∷ []
upsert_attempt new change (a ∷ rest) =
    if same_attempt new.run new.task new.attempt a
    then change a ∷ rest
    else a ∷ upsert_attempt new change rest

-- A value that is `undefined` stays out of the `set` clause.
abbrev pub or_kept {ℓ} : {A : Type ℓ} → Option A → Option A → Option A
or_kept none kept = kept
or_kept (some a) kept = some a

abbrev pub start_of : TaskStatus → ℕ → Option ℕ
start_of queued now = none
start_of running now = some now
start_of (ended s) now = none

abbrev pub end_of : TaskStatus → ℕ → Option ℕ
end_of queued now = some now
end_of running now = none
end_of (ended s) now = some now

unfoldable pub record_attempt :
    ℕ → Text → Text → ℕ → TaskStatus → Option Message → List Attempt → List Attempt
unfolding upsert_attempt
record_attempt now r t n s e =
    upsert_attempt
      (record {
        run = r;
        task = t;
        attempt = n;
        status = s;
        started_at = start_of s now;
        finished_at = end_of s now;
        error_message = e;
      })
      (λ a. record a {
        status = s;
        finished_at = or_kept (end_of s now) a.finished_at;
        error_message = or_kept e a.error_message;
      })

abbrev pub only_attempt : ℕ
only_attempt = 1

unfoldable pub mark_skipped : ℕ → Text → Text → List Attempt → List Attempt
unfolding upsert_attempt
mark_skipped now r t =
    upsert_attempt
      (record {
        run = r;
        task = t;
        attempt = only_attempt;
        status = ended skipped;
        started_at = none;
        finished_at = some now;
        error_message = none;
      })
      (λ a. record a { status = ended skipped; finished_at = some now })

-- `message.slice(0, 2000)`; the messages of the code are shorter.
abbrev pub clip : Message → Message
clip (given m) = given (take 2000 m)
clip (runner_exit n) = runner_exit n
clip (runner_exited_without_callback n) = runner_exited_without_callback n
clip (no_callback_within n) = no_callback_within n
clip (workflow_error m) = workflow_error m
clip (invalid_duration d) = invalid_duration d
clip base_url_missing = base_url_missing

unfoldable pub record_workflow_error : ℕ → Text → Text → Message → List Attempt → List Attempt
unfolding upsert_attempt
record_workflow_error now r t m =
    upsert_attempt
      (record {
        run = r;
        task = t;
        attempt = only_attempt;
        status = ended failed;
        started_at = some now;
        finished_at = some now;
        error_message = some (workflow_error (clip m));
      })
      (λ a. record a {
        status = ended failed;
        finished_at = some now;
        error_message = some (workflow_error (clip m));
      })

-- `r.attempt > prev`, where `prev` is -1 for a task with no attempt yet.
abbrev pub above : ℕ → Option ℕ → Bool
above n none = true
above n (some prev) = ltb prev n

abbrev pub keep_status :
    Attempt → TerminalStatus → Dict TerminalStatus → Dict ℕ → Dict TerminalStatus × Dict ℕ
keep_status a s out maxes =
    if above a.attempt (get a.task maxes)
    then (put a.task s out, put a.task a.attempt maxes)
    else (out, maxes)

abbrev pub load_step :
    Attempt → TaskStatus → Dict TerminalStatus → Dict ℕ → Dict TerminalStatus × Dict ℕ
load_step a queued out maxes = (out, maxes)
load_step a running out maxes = (out, maxes)
load_step a (ended s) out maxes = keep_status a s out maxes

-- The loop over the rows of the run.
unfoldable pub load_rows : Text → List Attempt → Dict TerminalStatus → Dict ℕ → Dict TerminalStatus
load_rows r [] out maxes = out
load_rows r (a ∷ rest) out maxes =
    let next = if text_eq a.run r then load_step a a.status out maxes else (out, maxes) in
    load_rows r rest next.0 next.1

-- `loadExistingTerminalStatuses`: of the ended attempts of a task, the status of the one with the
-- greatest number, the first of equals.
unfoldable pub load_existing : Text → List Attempt → Dict TerminalStatus
unfolding load_rows
load_existing r rows = load_rows r rows [] []
