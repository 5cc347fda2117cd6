-- ===== src/Jobs.antt =====
-- The background jobs that index documents (backend/app/queue.py, tasks/document_index.py and
-- services/document_index_service.py).
pub mod Lock
pub mod Index
pub mod Task
