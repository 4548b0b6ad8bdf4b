-- ===== src/TableCommit.antt =====
-- The commit protocol of Lattik Tables (apps/web/src/app/api/lattik/commit/route.ts).
pub mod Store
pub mod Commit
pub mod Rows
pub mod Manifests
pub mod Replies
pub mod Outcome
pub mod Writers
mod Examples
pub mod Read
pub mod Entries
