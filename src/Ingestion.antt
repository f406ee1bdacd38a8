-- ===== src/Ingestion.antt =====
-- The ingestion of a source before it is analyzed: backend/app/modules/ingestion.
pub mod Models
pub mod Normalization
pub mod Chunking
