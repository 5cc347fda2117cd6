-- ===== src/Documents.antt =====
-- The types of documents and the checks of their quality
-- (backend/app/services/document_quality.py).
pub mod Specs
pub mod Keywords
pub mod Quality
