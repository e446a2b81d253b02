-- ===== src/Extraction.antt =====
-- src/extraction
pub mod CircuitBreaker
pub mod Chunker
pub mod Merge
pub mod Orchestrator
pub mod Providers
pub mod Enrichment
