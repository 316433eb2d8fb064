-- ===== src/Sync.antt =====
-- Reconciliation of stores after a partition.
pub mod Dtn
mod Tests
