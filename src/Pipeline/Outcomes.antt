-- ===== src/Pipeline/Outcomes.antt =====
-- The outcome of a sandbox: apps/web/src/workflows/dag-runner.ts, `outcomeFromSandboxEvent` and
-- `outcomeFromMissingCallback`.
use lattik_studio.Prelude.{
  ℕ, ◌+◌, ◌/◌, Bool, Option, none, some, [], ◌∷◌, Text, ◌==◌, if◌then◌else◌,
}
use lattik_studio.Pipeline.Attempts.{
  Message, given, runner_exit, runner_exited_without_callback, no_callback_within,
}

abbrev pub sandbox_shutdown_grace_ms : ℕ
sandbox_shutdown_grace_ms = 30000

abbrev pub callback_flush_ms : ℕ
callback_flush_ms = 30000

-- `Math.ceil(watchdogMs / 1000)`.
abbrev pub watchdog_seconds : ℕ → ℕ
watchdog_seconds timeout = (timeout + sandbox_shutdown_grace_ms + callback_flush_ms + 999) / 1000

-- The payload of the sandbox's callback; an absent text is empty.
pub record SandboxDoneEvent : Type 0 where
  pub ok : Bool
  pub exit_code : ℕ
  pub error_message : Text
  pub stderr_tail : Text

pub record MissingCallback : Type 0 where
  pub exit_code : Option ℕ
  pub stderr_tail : Text

pub data TaskOutcome : Type 0 where
  good : TaskOutcome
  bad : Message → TaskOutcome

abbrev pub or_message : Text → Message → Message
or_message [] m = m
or_message (c ∷ cs) m = given (c ∷ cs)

unfoldable pub outcome_from_sandbox_event : SandboxDoneEvent → TaskOutcome
outcome_from_sandbox_event ev =
    if ev.ok
    then good
    else bad (or_message ev.error_message (or_message ev.stderr_tail (runner_exit ev.exit_code)))

abbrev pub exit_message : Option ℕ → ℕ → Message
exit_message none s = no_callback_within s
exit_message (some n) s = runner_exited_without_callback n

unfoldable pub outcome_from_missing_callback : MissingCallback → ℕ → TaskOutcome
outcome_from_missing_callback status s = outcome status.exit_code
  where
    outcome : Option ℕ → TaskOutcome
    outcome none = bad (or_message status.stderr_tail (exit_message none s))
    outcome (some n) =
        if n == 0 then good else bad (or_message status.stderr_tail (exit_message (some n) s))
