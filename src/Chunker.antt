-- ===== src/Chunker.antt =====
-- backend/app/rag/chunker.py: from a document's text to the chunks that are indexed. The conversion of
-- files (OCR, vision, PyMuPDF, MarkItDown) is outside of the model; its result is the text given here.
pub mod Clean
pub mod Windows
pub mod Pack
pub mod Sentences
pub mod Markdown
pub mod Blocks
pub mod Sections
