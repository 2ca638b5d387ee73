-- ===== src/Session/Contracts.antt =====
-- ai/session/contracts.py: requests, continuations and results of a session, and the variables of
-- its loop.
use my_digital_brain.Base.{Bool, ℕ, Option, List, Text}
use my_digital_brain.Session.Types.{Message, Library, PendingCall, Event}
use my_digital_brain.Session.Batch.{Interaction}
use my_digital_brain.Session.Tools.{ToolMapping}

-- `max_tool_calls`: a negative limit is none.
pub data Limit : Type 0 where
  default : Limit
  unlimited : Limit
  at : ℕ → Limit

module _ (l : Library) where
  -- `LLMSessionContinuation`
  pub record Continuation : Type 0 where
    pub session_id : Text
    pub messages : List Message
    pub pending_tool_calls : List (PendingCall l)
    pub interaction : Interaction l
    pub tool_events : List (Event l)
    pub tool_calls_used : ℕ

  -- `LLMSessionRequest`; `check` is `model_validate_json` of the schema and then the output
  -- validator, `none` the accepted output and `some` the message of the failure.
  pub record Request : Type 0 where
    pub system_prompt : Text
    pub messages : List Message
    pub has_toolbox : Bool
    pub tools_mapping : ToolMapping l
    pub max_tool_calls : Limit
    pub output_schema : Option (Text → Option Text)
    pub max_output_repairs : ℕ
    pub force_tool_follow_up : Bool
    pub session_id : Text
    pub continuation : Option Continuation

  -- `LLMCompletionRequest`: are the tools of the toolbox offered, and is a call required
  pub record Completion : Type 0 where
    pub messages : List Message
    pub tools_offered : Bool
    pub call_required : Bool

  pub data Outcome : Type 0 where
    completed : List Message → Text → List (Event l) → Outcome
    awaiting : List Message → Continuation → List (Event l) → Outcome
    failed : List Message → Text → List (Event l) → Outcome

  -- The variables of the loop of `_run_turns`.
  pub record Loop : Type 0 where
    pub session_id : Text
    pub messages : List Message
    pub events : List (Event l)
    pub executed : ℕ
    pub repair_attempts : ℕ
    pub tools_enabled : Bool
    pub continuation_required : Bool

  pub data Turn : Type 0 where
    stop : Outcome → Turn
    again : Loop → Turn
