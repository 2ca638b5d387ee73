-- ===== src/Agentic/Tools.antt =====
-- agentic/tools/registry.py: the tools, the states that each is for, and its handler.
-- The specification that is sent to the model (a description and a JSON schema) stays out.
use my_digital_brain.Base.{Option, none, some, List, [], ◌∷◌, ◌++◌, map, Text, codes}
use my_digital_brain.Agentic.Mutations.{MutationDefinition, mutation_definitions}
use my_digital_brain.Agentic.Ids.{
  StateId, state_value, conversation_entry, reasoning_checkpoint, planning_checkpoint,
  memory_log_extraction, contradiction_review, memory_query, memory_ingestion, memory_creation,
  graph_update, clarification_agent,
}

-- `AgenticToolDefinition`, without its `spec`
pub record ToolDefinition : Type 0 where
  pub name : Text
  pub allowed_states : List Text
  pub handler_key : Text

-- `handler_key or name`
unfoldable pub key_or : Text → Option Text → Text
key_or name none = name
key_or name (some []) = name
key_or name (some (c ∷ s)) = c ∷ s

-- `_definition`
unfoldable pub definition : Text → List StateId → Option Text → ToolDefinition
unfolding key_or state_value
definition name states handler_key = record {
  name = name;
  allowed_states = map state_value states;
  handler_key = key_or name handler_key;
}

abbrev conversation_states : List StateId
conversation_states = conversation_entry ∷ []

abbrev memory_query_states : List StateId
memory_query_states = memory_query ∷ []

abbrev memory_ingestion_states : List StateId
memory_ingestion_states = memory_ingestion ∷ []

abbrev memory_creation_states : List StateId
memory_creation_states = memory_creation ∷ []

abbrev graph_update_states : List StateId
graph_update_states = graph_update ∷ []

abbrev contradiction_states : List StateId
contradiction_states = contradiction_review ∷ []

abbrev reasoning_states : List StateId
reasoning_states = reasoning_checkpoint ∷ []

abbrev planning_states : List StateId
planning_states = planning_checkpoint ∷ memory_log_extraction ∷ []

abbrev clarification_states : List StateId
clarification_states = clarification_agent ∷ []

-- `_node_creation_definitions`
unfoldable pub node_creation_definitions : List StateId → List ToolDefinition
unfolding definition
node_creation_definitions states =
    map
      (λ (d : MutationDefinition).
        definition d.create_tool_name states (some (codes "create_typed_node")))
      mutation_definitions

-- `_node_patch_definitions`
unfoldable pub node_patch_definitions : List StateId → List ToolDefinition
unfolding definition
node_patch_definitions states =
    map
      (λ (d : MutationDefinition).
        definition d.patch_tool_name states (some (codes "patch_typed_node")))
      mutation_definitions

-- `question`, in `_clarification_tool_definitions`
unfoldable pub question : Text → ToolDefinition
unfolding definition
question name = definition name clarification_states none

-- `_clarification_tool_definitions`
unfoldable pub clarification_tool_definitions : List ToolDefinition
unfolding definition question
clarification_tool_definitions =
    (definition (codes "lookup_candidates") (clarification_states) none
      ∷ definition (codes "get_candidate_context") (clarification_states) none
      ∷ definition (codes "get_relationship_context") (clarification_states) none
      ∷ question (codes "pick_one")
      ∷ question (codes "pick_many")
      ∷ question (codes "confirm")
      ∷ question (codes "ask_text")
      ∷ question (codes "ask_text_or_audio")
      ∷ [])

-- `_graph_read_definitions`
unfoldable pub graph_read_definitions : List ToolDefinition
unfolding definition
graph_read_definitions =
    (definition (codes "get_context_package")
        (memory_query_states ++ memory_ingestion_states ++ memory_creation_states
          ++ graph_update_states ++ reasoning_states ++ planning_states ++ clarification_states)
        none
      ∷ definition (codes "get_entity_detail")
          (memory_query_states ++ memory_ingestion_states ++ memory_creation_states
            ++ graph_update_states ++ reasoning_states ++ planning_states ++ clarification_states)
          none
      ∷ definition (codes "get_node_detail") (contradiction_states)
          (some (codes "get_entity_detail"))
      ∷ definition (codes "get_memories_involving_node") (memory_query_states) none
      ∷ definition (codes "get_timeline") (memory_query_states ++ graph_update_states) none
      ∷ definition (codes "get_neighborhood_view")
          (memory_query_states ++ memory_ingestion_states ++ memory_creation_states
            ++ contradiction_states ++ graph_update_states ++ reasoning_states ++ planning_states
            ++ clarification_states)
          none
      ∷ definition (codes "get_map_view") (memory_query_states) none
      ∷ definition (codes "get_target_evidence")
          (memory_query_states ++ memory_ingestion_states ++ memory_creation_states
            ++ graph_update_states ++ contradiction_states ++ reasoning_states ++ planning_states
            ++ clarification_states)
          none
      ∷ definition (codes "get_latest_contact_details") (memory_query_states) none
      ∷ definition (codes "get_change_records") (contradiction_states) none
      ∷ definition (codes "get_relationship_state_history") (contradiction_states) none
      ∷ [])

-- `_default_definitions`
unfoldable pub default_definitions : List ToolDefinition
unfolding definition clarification_tool_definitions graph_read_definitions node_creation_definitions
    node_patch_definitions
default_definitions =
    (definition (codes "query_memory") (conversation_states) none
      ∷ definition (codes "ingest_memory") (conversation_states) none
      ∷ definition (codes "run_memory_creation") (memory_ingestion_states) none
      ∷ definition (codes "update_memory_graph") (memory_ingestion_states ++ memory_creation_states)
          none
      ∷ definition (codes "ask_clarification")
          ((graph_update ∷ memory_ingestion ∷ memory_creation ∷ contradiction_review
            ∷ reasoning_checkpoint ∷ planning_checkpoint ∷ memory_log_extraction ∷ []))
          none
      ∷ [])
    ++ clarification_tool_definitions
    ++ graph_read_definitions
    ++ (definition (codes "resolve_graph_update_targets") (graph_update_states) none
        ∷ definition (codes "create_memory_log") (graph_update_states ++ memory_creation_states)
            none
        ∷ [])
    ++ node_creation_definitions (graph_update_states ++ memory_creation_states)
    ++ node_patch_definitions graph_update_states
    ++ (definition (codes "upsert_graph_relationship")
          (graph_update_states ++ memory_creation_states) none
        ∷ definition (codes "create_relationship_state")
            (graph_update_states ++ memory_creation_states) none
        ∷ [])
