-- ===== src/Agentic/States.antt =====
-- agentic/state.py: what each state of the agent may do.
mod Conversation
mod Memory
unfoldable pub use Conversation.*
unfoldable pub use Memory.*
use my_digital_brain.Base.{ℕ, Option, none, some, List, [], ◌∷◌, ◌++◌, map, Text, codes}
use my_digital_brain.Agentic.Mutations.{node_creation_tool_names, node_patch_tool_names}
use my_digital_brain.Agentic.Ids.{
  conversation_entry, reasoning_checkpoint, planning_checkpoint, memory_log_extraction,
  contradiction_review, memory_query, memory_ingestion, memory_creation, graph_update,
  profile_duplication, clarification_agent, StateId, StateConfig, agentic_state,
}

-- The entry of `default_state_configs` for a state.
unfoldable pub default_state_config : StateId → StateConfig
unfolding conversation_entry_config reasoning_checkpoint_config planning_checkpoint_config
    memory_log_extraction_config memory_query_config memory_ingestion_config memory_creation_config
    graph_update_config contradiction_review_config profile_duplication_config
    clarification_agent_config
default_state_config conversation_entry = conversation_entry_config
default_state_config reasoning_checkpoint = reasoning_checkpoint_config
default_state_config planning_checkpoint = planning_checkpoint_config
default_state_config memory_log_extraction = memory_log_extraction_config
default_state_config contradiction_review = contradiction_review_config
default_state_config memory_query = memory_query_config
default_state_config memory_ingestion = memory_ingestion_config
default_state_config memory_creation = memory_creation_config
default_state_config graph_update = graph_update_config
default_state_config profile_duplication = profile_duplication_config
default_state_config clarification_agent = clarification_agent_config

-- `default_state_configs`, in its order
abbrev pub default_state_configs : List StateConfig
default_state_configs = map default_state_config (
    conversation_entry ∷ reasoning_checkpoint ∷ planning_checkpoint ∷ memory_log_extraction
    ∷ memory_query ∷ memory_ingestion ∷ memory_creation ∷ graph_update ∷ contradiction_review
    ∷ profile_duplication ∷ clarification_agent ∷ [])
