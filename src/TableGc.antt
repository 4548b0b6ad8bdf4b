-- ===== src/TableGc.antt =====
-- The garbage collection of Lattik Tables (apps/web/src/app/api/lattik/gc/route.ts).
pub mod Collect
pub mod Buckets
pub mod Safety
mod Examples
