-- ===== src/Agentic/States/Memory.antt =====
-- agentic/state.py: the states that read and write the memory.
use my_digital_brain.Base.{some, [], ◌∷◌, ◌++◌, codes}
use my_digital_brain.Agentic.Mutations.{node_creation_tool_names, node_patch_tool_names}
use my_digital_brain.Agentic.Ids.{
  contradiction_review, memory_query, memory_ingestion, memory_creation, graph_update,
  profile_duplication, clarification_agent, StateConfig, agentic_state,
}

unfoldable pub memory_query_config : StateConfig
memory_query_config = record {
  state_id = memory_query;
  node_kind = agentic_state;
  purpose = codes "Retrieve memory graph context and produce a grounded answer.";
  prompt_id = codes "memory_query";
  prompt_version = codes "v1";
  required_context_type = codes "QueryRetrievalPlanningContext";
  produced_context_type = some (codes "AnswerContext");
  allowed_tools =
      codes "get_context_package"
      ∷ codes "get_entity_detail"
      ∷ codes "get_memories_involving_node"
      ∷ codes "get_timeline"
      ∷ codes "get_neighborhood_view"
      ∷ codes "get_map_view"
      ∷ codes "get_target_evidence"
      ∷ codes "get_latest_contact_details"
      ∷ [];
  forbidden_tools =
      codes "execute_graph_write_plan"
      ∷ codes "ingest_memory"
      ∷ codes "update_memory_graph"
      ∷ codes "ask_clarification"
      ∷ codes "raw_graph_query"
      ∷ [];
  max_tool_calls = 50;
  model_task = some (codes "memory_query");
}

unfoldable pub memory_ingestion_config : StateConfig
memory_ingestion_config = record {
  state_id = memory_ingestion;
  node_kind = agentic_state;
  purpose = codes "Plan memory ingestion actions from history and hydrated context.";
  prompt_id = codes "memory_ingestion";
  prompt_version = codes "v1";
  required_context_type = codes "MemoryIngestionContext";
  produced_context_type = some (codes "MemoryIngestionResultContext");
  allowed_tools =
      codes "get_context_package"
      ∷ codes "get_entity_detail"
      ∷ codes "get_neighborhood_view"
      ∷ codes "get_target_evidence"
      ∷ codes "run_memory_creation"
      ∷ codes "update_memory_graph"
      ∷ codes "ask_clarification"
      ∷ [];
  forbidden_tools =
      codes "ingest_memory"
      ∷ codes "query_memory"
      ∷ codes "execute_graph_write_plan"
      ∷ codes "raw_graph_query"
      ∷ [];
  max_tool_calls = 50;
  model_task = some (codes "memory_ingestion");
}

unfoldable pub memory_creation_config : StateConfig
memory_creation_config = record {
  state_id = memory_creation;
  node_kind = agentic_state;
  purpose = codes "Execute one creation-oriented memory plan action through deterministic tools.";
  prompt_id = codes "memory_creation";
  prompt_version = codes "v1";
  required_context_type = codes "MemoryCreationContext";
  produced_context_type = some (codes "MemoryCreationResultContext");
  allowed_tools =
      (codes "get_context_package"
        ∷ codes "get_entity_detail"
        ∷ codes "get_neighborhood_view"
        ∷ codes "get_target_evidence"
        ∷ codes "create_memory_log"
        ∷ [])
      ++ node_creation_tool_names
      ++ (codes "upsert_graph_relationship"
          ∷ codes "create_relationship_state"
          ∷ codes "update_memory_graph"
          ∷ codes "ask_clarification"
          ∷ []);
  forbidden_tools =
      codes "ingest_memory"
      ∷ codes "query_memory"
      ∷ codes "execute_graph_write_plan"
      ∷ codes "raw_graph_query"
      ∷ [];
  max_tool_calls = 50;
  model_task = some (codes "memory_creation");
}

unfoldable pub graph_update_config : StateConfig
graph_update_config = record {
  state_id = graph_update;
  node_kind = agentic_state;
  purpose = codes "Update the memory graph through deterministic read/write tools.";
  prompt_id = codes "graph_update";
  prompt_version = codes "v1";
  required_context_type = codes "GraphUpdateContext";
  produced_context_type = some (codes "ToolResultContext");
  allowed_tools =
      (codes "resolve_graph_update_targets"
        ∷ codes "get_context_package"
        ∷ codes "get_entity_detail"
        ∷ codes "get_neighborhood_view"
        ∷ codes "get_target_evidence"
        ∷ codes "get_timeline"
        ∷ codes "create_memory_log"
        ∷ [])
      ++ node_creation_tool_names
      ++ node_patch_tool_names
      ++ (codes "upsert_graph_relationship"
          ∷ codes "create_relationship_state"
          ∷ codes "ask_clarification"
          ∷ []);
  forbidden_tools =
      codes "apply_merge"
      ∷ codes "raw_graph_query"
      ∷ codes "delete_graph_node"
      ∷ codes "archive_memory"
      ∷ [];
  max_tool_calls = 50;
  model_task = some (codes "graph_update");
}

unfoldable pub contradiction_review_config : StateConfig
contradiction_review_config = record {
  state_id = contradiction_review;
  node_kind = agentic_state;
  purpose = codes "Judge a grounded contradiction doubt without mutating graph state.";
  prompt_id = codes "contradiction_review";
  prompt_version = codes "v1";
  required_context_type = codes "ContradictionReviewContext";
  produced_context_type = some (codes "ContradictionJudgeResultContext");
  allowed_tools =
      codes "get_node_detail"
      ∷ codes "get_target_evidence"
      ∷ codes "get_neighborhood_view"
      ∷ codes "get_change_records"
      ∷ codes "get_relationship_state_history"
      ∷ codes "ask_clarification"
      ∷ [];
  forbidden_tools =
      codes "execute_graph_write_plan"
      ∷ codes "create_contradiction_record"
      ∷ codes "apply_merge"
      ∷ codes "raw_graph_query"
      ∷ [];
  max_tool_calls = 50;
  model_task = some (codes "contradiction_review");
}

unfoldable pub profile_duplication_config : StateConfig
profile_duplication_config = record {
  state_id = profile_duplication;
  node_kind = agentic_state;
  purpose = codes "Evaluate or reproduce the owner's approved profile without graph writes.";
  prompt_id = codes "profile_duplication";
  prompt_version = codes "v1";
  required_context_type = codes "PlanningTransformContext";
  produced_context_type = some (codes "PlanningTransformResultContext");
  allowed_tools = [];
  forbidden_tools =
      (codes "execute_graph_write_plan" ∷ codes "ingest_memory" ∷ codes "update_memory_graph" ∷ [])
      ++ node_creation_tool_names
      ++ node_patch_tool_names
      ++ (codes "upsert_graph_relationship" ∷ codes "raw_graph_query" ∷ []);
  max_tool_calls = 50;
  model_task = some (codes "profile_duplication");
}

unfoldable pub clarification_agent_config : StateConfig
clarification_agent_config = record {
  state_id = clarification_agent;
  node_kind = agentic_state;
  purpose = codes "Resolve caller-supplied doubts through read-only context and user interaction.";
  prompt_id = codes "clarification_agent";
  prompt_version = codes "v1";
  required_context_type = codes "ClarificationSessionInput";
  produced_context_type = some (codes "ClarificationResolutionReport");
  allowed_tools =
      codes "lookup_candidates"
      ∷ codes "get_candidate_context"
      ∷ codes "get_relationship_context"
      ∷ codes "pick_one"
      ∷ codes "pick_many"
      ∷ codes "confirm"
      ∷ codes "ask_text"
      ∷ codes "ask_text_or_audio"
      ∷ [];
  forbidden_tools =
      (codes "ask_clarification" ∷ codes "execute_graph_write_plan" ∷ [])
      ++ node_creation_tool_names
      ++ node_patch_tool_names
      ++ (codes "create_memory_log"
          ∷ codes "upsert_graph_relationship"
          ∷ codes "raw_graph_query"
          ∷ []);
  max_tool_calls = 50;
  model_task = some (codes "clarification_agent");
}
