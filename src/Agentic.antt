-- ===== src/Agentic.antt =====
-- The states of the agent, their tools, and the registry that checks them against each other.
pub mod Mutations
pub mod Ids
pub mod States
pub mod Tools
pub mod Toolbox
