-- ===== src/Tests.antt =====
-- The theorems applied at concrete inputs.
mod References
mod Agentic
mod Context
mod Session
mod Client
mod Clarification
mod Refs
mod Graph
mod Candidates
mod Ingest
