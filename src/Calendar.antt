-- ===== src/Calendar.antt =====
-- packages/core/src/calendar: the events of entities and the conflicts between them.
pub mod Conflicts
