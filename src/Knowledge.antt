-- ===== src/Knowledge.antt =====
-- backend/src/modules/knowledge: the knowledge bases, their documents and their ingestion.
pub mod State
pub mod Chunker
pub mod Bases
pub mod Ingestion
pub mod Documents
pub mod Inserted
pub mod Refinement
pub mod Erased
pub mod Pieces
mod Examples
