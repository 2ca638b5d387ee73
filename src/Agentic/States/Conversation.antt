-- ===== src/Agentic/States/Conversation.antt =====
-- agentic/state.py: the states that talk and plan.
use my_digital_brain.Base.{some, [], ◌∷◌, codes}
use my_digital_brain.Agentic.Ids.{
  conversation_entry, reasoning_checkpoint, planning_checkpoint, memory_log_extraction, StateConfig,
  agentic_state,
}

unfoldable pub conversation_entry_config : StateConfig
conversation_entry_config = record {
  state_id = conversation_entry;
  node_kind = agentic_state;
  purpose = codes "Choose whether to answer directly or call a top-level memory tool.";
  prompt_id = codes "conversation_entry";
  prompt_version = codes "v1";
  required_context_type = codes "ConversationContext";
  produced_context_type = some (codes "ToolResultContext");
  allowed_tools = codes "query_memory" ∷ codes "ingest_memory" ∷ [];
  forbidden_tools =
      codes "execute_graph_write_plan" ∷ codes "raw_graph_query" ∷ codes "focused_extraction" ∷ [];
  max_tool_calls = 50;
  model_task = some (codes "conversation_entry");
}

unfoldable pub reasoning_checkpoint_config : StateConfig
reasoning_checkpoint_config = record {
  state_id = reasoning_checkpoint;
  node_kind = agentic_state;
  purpose =
      codes
        "Augment process context with structured reasoning insights before a downstream storage, validation, or orchestration step.";
  prompt_id = codes "reasoning_checkpoint";
  prompt_version = codes "v1";
  required_context_type = codes "ReasoningCheckpointContext";
  produced_context_type = some (codes "ReasoningCheckpointResultContext");
  allowed_tools =
      codes "get_context_package"
      ∷ codes "get_entity_detail"
      ∷ codes "get_neighborhood_view"
      ∷ codes "get_target_evidence"
      ∷ codes "ask_clarification"
      ∷ [];
  forbidden_tools =
      codes "execute_graph_write_plan"
      ∷ codes "ingest_memory"
      ∷ codes "update_memory_graph"
      ∷ codes "raw_graph_query"
      ∷ codes "focused_extraction"
      ∷ [];
  max_tool_calls = 50;
  model_task = some (codes "reasoning_checkpoint");
}

unfoldable pub planning_checkpoint_config : StateConfig
planning_checkpoint_config = record {
  state_id = planning_checkpoint;
  node_kind = agentic_state;
  purpose =
      codes
        "Convert caller-provided goals, context, and reasoning artifacts into ordered structured process actions without mutating storage.";
  prompt_id = codes "planning_checkpoint";
  prompt_version = codes "v1";
  required_context_type = codes "PlanningTransformContext";
  produced_context_type = some (codes "PlanningTransformResultContext");
  allowed_tools =
      codes "get_context_package"
      ∷ codes "get_entity_detail"
      ∷ codes "get_neighborhood_view"
      ∷ codes "get_target_evidence"
      ∷ codes "ask_clarification"
      ∷ [];
  forbidden_tools =
      codes "execute_graph_write_plan"
      ∷ codes "ingest_memory"
      ∷ codes "update_memory_graph"
      ∷ codes "raw_graph_query"
      ∷ codes "focused_extraction"
      ∷ [];
  max_tool_calls = 50;
  model_task = some (codes "planning_checkpoint");
}

unfoldable pub memory_log_extraction_config : StateConfig
memory_log_extraction_config = record {
  state_id = memory_log_extraction;
  node_kind = agentic_state;
  purpose =
      codes
        "Extract one backend-facing MemoryLog draft from a planned memory-log target without mutating storage.";
  prompt_id = codes "memory_log_extraction";
  prompt_version = codes "v1";
  required_context_type = codes "PlanningTransformContext";
  produced_context_type = some (codes "MemoryLogDraftBatch");
  allowed_tools =
      codes "get_context_package"
      ∷ codes "get_entity_detail"
      ∷ codes "get_neighborhood_view"
      ∷ codes "get_target_evidence"
      ∷ codes "ask_clarification"
      ∷ [];
  forbidden_tools =
      codes "execute_graph_write_plan"
      ∷ codes "ingest_memory"
      ∷ codes "update_memory_graph"
      ∷ codes "raw_graph_query"
      ∷ codes "focused_extraction"
      ∷ [];
  max_tool_calls = 50;
  model_task = some (codes "memory_log_extraction");
}
