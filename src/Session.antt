-- ===== src/Session.antt =====
-- ai/session: one logical LLM session, its provider turns and its tool calls.
pub mod Types
pub mod Tools
pub mod Packets
pub mod Batch
pub mod Contracts
pub mod Runner
