-- ===== src/Retrieval.antt =====
-- backend/retrieval/app: the sections of the policy documents, and the search in them.
pub mod Chunker
pub mod Terms
pub mod Hybrid
pub mod Index
pub mod Bm25
mod Tests
