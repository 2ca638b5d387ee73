-- ===== src/Session/Types.antt =====
-- ai/session/contracts.py, ai/models.py and the message of ai/schemas.py: the data of a session.
-- Arguments of tools, structured output and the JSON encoding are the libraries'.
use my_digital_brain.Base.{ℕ, ◌≡◌, Bool, Option, List, holds, Text, codes, text_discrete}

pub data Role : Type 0 where
  system developer user assistant tool : Role

unfoldable pub role_discrete : Discrete Role
role_discrete = hlevel

-- A tool call as the provider returned it; `none` stands for a field that is missing or empty.
pub record RawCall : Type 0 where
  pub id : Option Text
  pub name : Option Text
  pub arguments : Option Text

-- `ChatMessage`
pub record Message : Type 0 where
  pub role : Role
  pub content : Text
  pub tool_call_id : Option Text
  pub tool_calls : List RawCall

-- `ClarificationPacket`, as far as the session combines packets
pub record Packet : Type 0 where
  pub packet_id : Text
  pub tool_call_id : Text
  pub tool_name : Text
  pub questions : List Text
  pub target_refs : List Text
  pub history_delta : List Text

-- `ToolResult.data`, as far as the session reads it
pub record Payload : Type 0 where
  pub interaction_group : Option Text
  pub clarification_packet : Option Packet
  pub tool_call_ids : List Text
  pub rest : Text

-- `ToolError`, without its `type`; of `details` the ids of the calls
pub record ToolError : Type 0 where
  pub message : Text
  pub code : Text
  pub hint : Option Text
  pub retryable : Bool
  pub tool_call_ids : List Text

-- `ToolResult`
pub record ToolResult : Type 0 where
  pub status : Text
  pub output : Option Text
  pub payload : Option Payload
  pub error : Option ToolError
  pub continuation_required : Bool

abbrev pub pending_status : Text
pending_status = codes "pending"

-- `result.status == "pending"`
unfoldable pub is_pending : ToolResult → Bool
is_pending r = holds (text_discrete r.status pending_status)

-- What a mapped function does: it returns a value of one of the kinds that the executor tells
-- apart, or it raises.
pub data Output : Type 0 where
  result : ToolResult → Output
  structured : Payload → Output
  nothing : Output
  plain : Text → Output
  raised : Text → Output

-- The libraries: JSON, and the tools of the other parts of the program.
pub record Library : Type 1 where
  -- parsed arguments of a call
  pub Arguments : Type 0
  pub no_arguments : Arguments
  -- `json.loads`, where it gives a `dict`
  pub loads : Text → Option Arguments
  -- `ToolResult.model_dump_json`
  pub dump : ToolResult → Text
  -- does the text parse to an object whose `status` is `"pending"`
  pub says_pending : Text → Bool
  -- `new_uuid`, the `n`-th one
  pub uuid : ℕ → Text
  -- `render_clarification_questions`
  pub render : Packet → Text
  -- what was dumped is read back
  pub says_pending-dump : (r : ToolResult) → says_pending (dump r) ≡ is_pending r

-- `PendingToolCall`
pub record PendingCall (l : Library) : Type 0 where
  pub call_id : Text
  pub name : Text
  pub arguments : Library.Arguments l

-- `ToolExecutionEvent`; the name and the arguments are those of the call
pub record Event (l : Library) : Type 0 where
  pub call : PendingCall l
  pub result : ToolResult
