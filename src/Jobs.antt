-- ===== src/Jobs.antt =====
-- The queue of jobs, the worker that runs them, and the ingestion jobs (src/jobs).
pub mod Queue
pub mod Worker
pub mod FreshnessIngestion
pub mod FreshnessPersistence
pub mod Ingestion
pub mod StartupIngestion
pub mod ProductIngestion
pub mod ResearchIngestion
