-- ===== src/Plan.antt =====
-- The plan document: what internal/core/plan shows of a change.
pub mod Hunks
