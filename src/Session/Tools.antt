-- ===== src/Session/Tools.antt =====
-- ai/session/tool_executor.py and the tool messages of ai/session/runner.py.
use my_digital_brain.Base.{
  ℕ, Bool, false, ◌&&◌, Option, none, some, List, [], ◌∷◌, ◌++◌, if◌then◌else◌, holds, Text, codes,
  text_discrete, Table, get,
}
use my_digital_brain.Session.Types.{
  tool, role_discrete, RawCall, Message, ToolResult, Output, result, structured, nothing, plain,
  raised, Library, PendingCall,
}

-- `str(x or default)`
unfoldable pub text_or : Option Text → Text → Text
text_or none default = default
text_or (some []) default = default
text_or (some (c ∷ s)) default = c ∷ s

abbrev pub error_status : Text
error_status = codes "error"

abbrev pub ok_status : Text
ok_status = codes "ok"

abbrev pub success : ToolResult
success = record {
  status = ok_status;
  output = none;
  payload = none;
  error = none;
  continuation_required = false;
}

abbrev failure : Text → Text → Option Text → ToolResult
failure message code hint = record success {
  status = error_status;
  error = some (record {
    message = message;
    code = code;
    hint = hint;
    retryable = false;
    tool_call_ids = [];
  });
}

-- What the executor makes of an output of the named tool: every kind of value, and every exception,
-- is a result.
unfoldable pub normalize_output : Text → Output → ToolResult
normalize_output name (result r) = r
normalize_output name (structured p) = record success { payload = some p }
normalize_output name nothing = record success { output = some ok_status }
normalize_output name (plain s) = record success { output = some s }
normalize_output name (raised message) =
    failure (codes "Tool '" ++ name ++ codes "' failed: " ++ message) (codes "tool_execution_error")
      none

module _ (l : Library) where
  -- The tools of a session; a tool may answer another call of the same arguments differently.
  abbrev pub ToolMapping : Type 0
  ToolMapping = Table (ℕ → l.Arguments → Output)

  -- `_pending_tool_call`
  unfoldable pub pending_tool_call : RawCall → PendingCall l
  unfolding text_or
  pending_tool_call raw = record {
    call_id = text_or raw.id (codes "unknown-call");
    name = text_or raw.name (codes "unknown_tool");
    arguments = elim (l.loads (text_or raw.arguments (codes "{}"))) [
      | none ↦ l.no_arguments
      | some a ↦ a
    ];
  }

  -- `ToolExecutor.execute`; `n` tells the call from the earlier ones. The hint goes on with the names
  -- of the mapping, which stay out.
  unfoldable pub execute : ToolMapping → ℕ → PendingCall l → ToolResult
  unfolding normalize_output
  execute mapping n call = elim (get mapping call.name) [
    | none ↦
        failure (codes "Tool '" ++ call.name ++ codes "' is not available in this session.")
          (codes "tool_not_allowed") (some (codes "Allowed tools: "))
    | some function ↦ normalize_output call.name (function n call.arguments)
  ]

  -- `_tool_message`
  unfoldable pub tool_message : Text → ToolResult → Message
  tool_message call_id r = record {
    role = tool;
    content = l.dump r;
    tool_call_id = some call_id;
    tool_calls = [];
  }

  -- `message.role == "tool" and message.tool_call_id == call_id`
  unfoldable pub answers : Text → Message → Bool
  answers call_id m =
      holds (role_discrete m.role tool)
      && elim m.tool_call_id [ none ↦ false | some id ↦ holds (text_discrete id call_id) ]

  -- `_upsert_tool_message`: the first answer to the call is replaced, or a new one goes last.
  unfoldable pub upsert_tool_message : Text → ToolResult → List Message → List Message
  upsert_tool_message call_id r [] = tool_message call_id r ∷ []
  upsert_tool_message call_id r (m ∷ messages) =
      if answers call_id m
      then tool_message call_id r ∷ messages
      else m ∷ upsert_tool_message call_id r messages
