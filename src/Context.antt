-- ===== src/Context.antt =====
-- ai/context.py: the token budget of a provider call.
pub mod Limits
pub mod Compaction
