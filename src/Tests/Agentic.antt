-- ===== src/Tests/Agentic.antt =====
-- The tools of a state at concrete inputs.
use my_digital_brain.Agentic.Ids.{
  StateConfig, StateId, agentic_state, clarification_agent, profile_duplication, state_value,
  conversation_entry, reasoning_checkpoint, planning_checkpoint, memory_log_extraction,
  contradiction_review, memory_query, memory_ingestion, memory_creation, graph_update,
}
use my_digital_brain.Agentic.Mutations.{
  given_name, identity_gap_for_node_creation, name_parts, name_parts_from,
}
use my_digital_brain.Agentic.States.{default_state_config}
use my_digital_brain.Agentic.States.{
  conversation_entry_config, memory_log_extraction_config, planning_checkpoint_config,
  reasoning_checkpoint_config,
}
use my_digital_brain.Agentic.States.{
  clarification_agent_config, contradiction_review_config, graph_update_config,
  memory_creation_config, memory_ingestion_config, memory_query_config, profile_duplication_config,
}
use my_digital_brain.Agentic.Toolbox.{
  by_name, collect, default_agentic_tool_registry, definitions_for_state, get_tool, invalid,
  permitted, tool_registry,
}
use my_digital_brain.Agentic.Toolbox.Policy.{
  AllGranted, definitions_for_state-AllGranted, granted-definitions_for_state,
}
use my_digital_brain.Agentic.Tools.{
  ToolDefinition, clarification_tool_definitions, default_definitions, definition,
  graph_read_definitions, key_or, node_creation_definitions, node_patch_definitions, question,
}
use my_digital_brain.Base.{
  List, Table, [], codes, empty, err, get, insert, is_space, lookup, lstrip, none, ok, put, refl,
  some, strip, text_discrete, ℕ_discrete, ◌∷◌, ◌≡◌,
}

abbrev finder : ToolDefinition
finder = record {
  name = codes "find";
  allowed_states = codes "memory_query" ∷ [];
  handler_key = codes "find";
}

abbrev tools : Table ToolDefinition
tools = (codes "find", finder) ∷ []

abbrev query : StateConfig
query = record {
  state_id = memory_query;
  node_kind = agentic_state;
  purpose = [];
  prompt_id = codes "memory_query";
  prompt_version = codes "v1";
  required_context_type = codes "Query";
  produced_context_type = none;
  allowed_tools = codes "find" ∷ [];
  forbidden_tools = codes "patch" ∷ [];
  max_tool_calls = 50;
  model_task = none;
}

query-tools : definitions_for_state tools query ≡ ok (finder ∷ [])
unfolding definitions_for_state collect permitted get_tool get lookup state_value text_discrete
    ℕ_discrete
query-tools = refl

definitions_for_state-AllGranted_example : AllGranted tools query query.allowed_tools (finder ∷ [])
definitions_for_state-AllGranted_example =
    definitions_for_state-AllGranted tools query (finder ∷ []) query-tools

query_granted : AllGranted tools query query.allowed_tools (finder ∷ [])
query_granted = definitions_for_state-AllGranted tools query (finder ∷ []) query-tools

granted-definitions_for_state_example : definitions_for_state tools query ≡ ok (finder ∷ [])
granted-definitions_for_state_example =
    granted-definitions_for_state tools query (finder ∷ []) query_granted

single_name :
    identity_gap_for_node_creation (codes "Person") (some (codes " Anna ")) ≡ some (codes "Anna")
unfolding identity_gap_for_node_creation name_parts name_parts_from given_name strip lstrip is_space
    text_discrete ℕ_discrete
single_name = refl

hyphenated_name : identity_gap_for_node_creation (codes "Person") (some (codes "Anna-Lena")) ≡ none
unfolding identity_gap_for_node_creation name_parts name_parts_from given_name strip lstrip is_space
    text_discrete ℕ_discrete
hyphenated_name = refl

abbrev default_tools : Table ToolDefinition
default_tools = by_name default_definitions empty

-- The tools that the default registry gives a state.
abbrev default_tools_of : StateId → List ToolDefinition
default_tools_of state = elim (definitions_for_state default_tools (default_state_config state)) [
  | ok ds ↦ ds
  | err error ↦ []
]

-- The default registry is built, and every state's default configuration passes its check.
defaults_pass :
    (state : StateId)
    → (tools : Table ToolDefinition) × (ds : List ToolDefinition) × (default_agentic_tool_registry
        ≡ ok tools)
      × (definitions_for_state tools (default_state_config state) ≡ ok ds)
unfolding default_agentic_tool_registry definitions_for_state collect permitted get_tool by_name
    tool_registry invalid default_definitions definition key_or question
    clarification_tool_definitions graph_read_definitions node_creation_definitions
    node_patch_definitions state_value text_discrete ℕ_discrete get put lookup insert
    default_state_config conversation_entry_config reasoning_checkpoint_config
    planning_checkpoint_config memory_log_extraction_config contradiction_review_config
    memory_query_config memory_ingestion_config memory_creation_config graph_update_config
    profile_duplication_config clarification_agent_config
defaults_pass conversation_entry = (default_tools, default_tools_of conversation_entry, refl, refl)
defaults_pass reasoning_checkpoint =
    (default_tools, default_tools_of reasoning_checkpoint, refl, refl)
defaults_pass planning_checkpoint =
    (default_tools, default_tools_of planning_checkpoint, refl, refl)
defaults_pass memory_log_extraction =
    (default_tools, default_tools_of memory_log_extraction, refl, refl)
defaults_pass contradiction_review =
    (default_tools, default_tools_of contradiction_review, refl, refl)
defaults_pass memory_query = (default_tools, default_tools_of memory_query, refl, refl)
defaults_pass memory_ingestion = (default_tools, default_tools_of memory_ingestion, refl, refl)
defaults_pass memory_creation = (default_tools, default_tools_of memory_creation, refl, refl)
defaults_pass graph_update = (default_tools, default_tools_of graph_update, refl, refl)
defaults_pass profile_duplication =
    (default_tools, default_tools_of profile_duplication, refl, refl)
defaults_pass clarification_agent =
    (default_tools, default_tools_of clarification_agent, refl, refl)
