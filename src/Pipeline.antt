-- ===== src/Pipeline.antt =====
-- The scheduler and the runner of pipelines (apps/web/src/lib/dag-*.ts and
-- apps/web/src/workflows/dag-runner.ts).
pub mod Topology
pub mod Attempts
pub mod Durations
pub mod Outcomes
pub mod Runner
pub mod Runs
pub mod Enqueueing
pub mod Dispatching
pub mod Orphans
pub mod Scheduler
pub mod Reconciler
mod Examples
