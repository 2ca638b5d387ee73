-- ===== src/Ingest.antt =====
-- ingestion: plans of graph writes, their validation and their execution.
pub mod Plan
pub mod Issues
pub mod Validate
pub mod Candidates
pub mod Targets
pub mod Execute
