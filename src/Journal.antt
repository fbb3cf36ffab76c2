-- ===== src/Journal.antt =====
-- packages/core/src/journal: the locks of the journal's distillation.
pub mod Cooldown
pub mod Merge
