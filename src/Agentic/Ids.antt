-- ===== src/Agentic/Ids.antt =====
-- agentic/enums.py and the record of agentic/state.py: the states of the agent.
use my_digital_brain.Base.{ℕ, Option, List, Text, codes}

-- `AgenticStateId`
pub data StateId : Type 0 where
  conversation_entry reasoning_checkpoint planning_checkpoint memory_log_extraction
        contradiction_review memory_query memory_ingestion memory_creation graph_update
        profile_duplication clarification_agent :
      StateId

-- The value of a state id, `_state_value`.
unfoldable pub state_value : StateId → Text
state_value conversation_entry = codes "conversation_entry"
state_value reasoning_checkpoint = codes "reasoning_checkpoint"
state_value planning_checkpoint = codes "planning_checkpoint"
state_value memory_log_extraction = codes "memory_log_extraction"
state_value contradiction_review = codes "contradiction_review"
state_value memory_query = codes "memory_query"
state_value memory_ingestion = codes "memory_ingestion"
state_value memory_creation = codes "memory_creation"
state_value graph_update = codes "graph_update"
state_value profile_duplication = codes "profile_duplication"
state_value clarification_agent = codes "clarification_agent"

-- `AgenticNodeKind`
pub data NodeKind : Type 0 where
  agentic_state llm_procedure backend_process runtime_state : NodeKind

-- `AgenticStateConfig`; `metadata` is empty in every state.
pub record StateConfig : Type 0 where
  pub state_id : StateId
  pub node_kind : NodeKind
  pub purpose : Text
  pub prompt_id : Text
  pub prompt_version : Text
  pub required_context_type : Text
  pub produced_context_type : Option Text
  pub allowed_tools : List Text
  pub forbidden_tools : List Text
  pub max_tool_calls : ℕ
  pub model_task : Option Text
