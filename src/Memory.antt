-- ===== src/Memory.antt =====
-- The long-term memory of a learner (backend/app/memory/consolidator.py): the table of memories, and
-- the events that are merged into it.
pub mod Upsert
pub mod Consolidator
