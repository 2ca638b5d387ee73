-- ===== src/Refs.antt =====
-- agentic/refs.py: the references of an agent's session, and what the model sees of them.
pub mod Entry
pub mod Context
