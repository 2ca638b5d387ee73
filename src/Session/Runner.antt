-- ===== src/Session/Runner.antt =====
-- ai/session/runner.py: `LLMSessionRunner`, and ai/session/continuation.py. The loop over provider
-- turns takes fuel; Runner/Ends shows how much is enough.
pub mod Ends
pub mod Resume
pub mod Outcomes
use my_digital_brain.Base.{
  some_of, every, has, keys, map, elem, text_discrete, Table, holds, codes, if◌then◌else◌, ◌∷◌,
  Bool, ℕ, zero, suc, ◌+◌, true, false, not, ◌&&◌, ◌||◌, Option, none, some, List, [], ◌++◌, leb,
  length, Text,
}
use my_digital_brain.Session.Types.{
  user, RawCall, Message, Library, PendingCall, Event, system, ToolResult, role_discrete,
}
use my_digital_brain.Session.Batch.{BatchResult, Interaction, execute_batch}
use my_digital_brain.Session.Tools.{ToolMapping, answers, upsert_tool_message}
use my_digital_brain.Session.Contracts.{
  Completion, Continuation, Limit, Loop, Outcome, Request, Turn, again, at, awaiting, completed,
  default, failed, stop, unlimited,
}

module _ (l : Library) where
  -- `_cap_reached`
  unfoldable pub cap_reached : Limit → ℕ → Bool
  cap_reached default executed = leb 50 executed
  cap_reached unlimited executed = false
  cap_reached (at n) executed = leb n executed

  -- `bool(tools_mapping)`
  unfoldable pub has_tools : ToolMapping l → Bool
  has_tools [] = false
  has_tools (t ∷ ts) = true

  -- `_completion_request`
  unfoldable pub completion_request : Loop l → Completion l
  completion_request s = record {
    messages = s.messages;
    tools_offered = s.tools_enabled;
    call_required = s.tools_enabled && s.continuation_required;
  }

  -- `any(event.result.continuation_required for event in new_events)`
  unfoldable pub any_continuation : List (Event l) → Bool
  any_continuation [] = false
  any_continuation (e ∷ events) = e.result.continuation_required || any_continuation events

  -- What follows a batch: the session waits, or another turn begins.
  unfoldable pub after_batch : Request l → Loop l → ℕ → BatchResult l → Turn l
  after_batch request s executed b = elim b.pending [
    | c ∷ cs ↦ stop (
        awaiting b.messages
          (record {
            session_id = s.session_id;
            messages = b.messages;
            pending_tool_calls = c ∷ cs;
            interaction = b.interaction;
            tool_events = s.events ++ b.events;
            tool_calls_used = executed;
          })
          (s.events ++ b.events))
    | [] ↦ again (record s {
      messages = b.messages;
      events = s.events ++ b.events;
      executed = executed;
      tools_enabled = s.tools_enabled && not (cap_reached request.max_tool_calls executed);
      continuation_required = any_continuation b.events;
    })
  ]

  -- The branch of a turn with tool calls.
  unfoldable pub tool_turn : Request l → Loop l → List RawCall → Turn l
  unfolding has_tools after_batch
  tool_turn request s calls =
      if has_tools request.tools_mapping
      then after_batch request s (s.executed + length calls)
          (execute_batch l request.tools_mapping s.executed calls s.messages)
      else stop (
          failed s.messages
            (codes "The model returned tool calls but this session has no tool mapping.") s.events)

  -- `_repair_message`, around the text of the failure
  unfoldable pub repair_message : Text → Message
  repair_message error = record {
    role = user;
    content = error;
    tool_call_id = none;
    tool_calls = [];
  }

  -- The branch of an output that fails its check.
  unfoldable pub repair_turn : Request l → Loop l → Text → Turn l
  unfolding repair_message
  repair_turn request s error =
      if leb request.max_output_repairs s.repair_attempts
      then stop (failed s.messages error s.events)
      else again (record s {
        messages = s.messages ++ repair_message error ∷ [];
        repair_attempts = s.repair_attempts + 1;
      })

  -- The branch of a final message.
  unfoldable pub final_turn : Request l → Loop l → Text → Turn l
  unfolding repair_turn
  final_turn request s content =
      if s.continuation_required
      then stop (
          failed s.messages
            (codes
              "An intermediate tool result was returned to the invoking session, but the provider did not produce the required follow-up tool call. No tool result was promoted to a final assistant response.")
            s.events)
      else elim request.output_schema [
        | none ↦ stop (completed s.messages content s.events)
        | some check ↦ elim (check content) [
          | none ↦ stop (completed s.messages content s.events)
          | some error ↦ repair_turn request s error
        ]
      ]

  -- One round of `_run_turns`, for the assistant message that the provider returns.
  unfoldable pub turn : Request l → Loop l → Message → Turn l
  unfolding tool_turn final_turn
  turn request s reply =
      let s' : Loop l = record s { messages = s.messages ++ reply ∷ [] } in
      elim reply.tool_calls [
        | [] ↦ final_turn request s' reply.content
        | c ∷ cs ↦ tool_turn request s' (c ∷ cs)
      ]

  -- The provider: its answer to the `n`-th request of the session.
  abbrev pub Provider : Type 0
  Provider = ℕ → Completion l → Message

  -- `while True`
  unfoldable pub run_loop : ℕ → Provider → Request l → ℕ → Loop l → Option (Outcome l)
  unfolding turn completion_request
  run_loop zero provider request n s = none
  run_loop (suc fuel) provider request n s =
      elim (turn request s (provider n (completion_request s))) [
        | stop o ↦ some o
        | again s' ↦ run_loop fuel provider request (n + 1) s'
      ]

  -- The loop's variables at the head of `_run_turns`.
  unfoldable pub start : Request l → Text → List Message → List (Event l) → ℕ → Loop l
  unfolding has_tools cap_reached
  start request session_id messages events executed = record {
    session_id = session_id;
    messages = messages;
    events = events;
    executed = executed;
    repair_attempts = 0;
    tools_enabled =
        request.has_toolbox
        && has_tools request.tools_mapping
        && not (cap_reached request.max_tool_calls executed);
    continuation_required = request.force_tool_follow_up;
  }

  -- `_run_turns`
  unfoldable pub run_turns :
      ℕ → Provider → Request l → Text → List Message → List (Event l) → ℕ → Option (Outcome l)
  unfolding start run_loop
  run_turns fuel provider request session_id messages events executed =
      run_loop fuel provider request 0 (start request session_id messages events executed)

  -- Does a completed tool message answer the call? `_tool_message_is_pending` reads the content.
  unfoldable pub answered : List Message → PendingCall l → Bool
  answered messages call =
      some_of (λ m. answers l call.call_id m && not (l.says_pending m.content)) messages

  -- `completed_ids == pending_ids`: the completed ids are among the pending ones by their filter.
  unfoldable pub all_answered : Continuation l → List Message → Bool
  unfolding answered
  all_answered c messages = every (answered messages) c.pending_tool_calls

  -- `x or y` on lists of messages
  unfoldable pub messages_or : List Message → List Message → List Message
  messages_or [] other = other
  messages_or (m ∷ ms) other = m ∷ ms

  -- `x or y` on session ids
  unfoldable pub id_or : Text → Text → Text
  id_or [] other = other
  id_or (c ∷ s) other = c ∷ s

  -- `_resume`
  unfoldable pub resume : ℕ → Provider → Request l → Continuation l → Option (Outcome l)
  unfolding all_answered messages_or id_or
  resume fuel provider request c =
      let messages = messages_or request.messages c.messages in
      let session_id = id_or request.session_id c.session_id in
      if all_answered c messages
      then run_turns fuel provider (record request { continuation = none; session_id = session_id })
          session_id messages c.tool_events c.tool_calls_used
      else some (awaiting messages c c.tool_events)

  -- The messages of a new session: the system prompt goes first, unless a system message is there.
  unfoldable pub initial_messages : Request l → List Message
  initial_messages request =
      let prompt : Message = record {
        role = system;
        content = request.system_prompt;
        tool_call_id = none;
        tool_calls = [];
      } in
      elim request.messages [
        | [] ↦ prompt ∷ []
        | m ∷ ms ↦ if holds (role_discrete m.role system) then m ∷ ms else prompt ∷ m ∷ ms
      ]

  -- `run`
  unfoldable pub run : ℕ → Provider → Request l → Option (Outcome l)
  unfolding initial_messages resume run_turns
  run fuel provider request = elim request.continuation [
    | some c ↦ resume fuel provider request c
    | none ↦
        run_turns fuel provider request (id_or request.session_id (codes "session-local"))
          (initial_messages request) [] 0
  ]

  -- The results of one external interaction, by call id.
  -- `set(results) != {call.call_id for call in pending_tool_calls}`
  unfoldable pub same_group : List (PendingCall l) → Table ToolResult → Bool
  same_group calls results =
      every (λ (c : PendingCall l). has results c.call_id) calls
      && every (λ k. elem text_discrete k (map (λ (c : PendingCall l). c.call_id) calls))
          (keys results)

  -- The loop of `continuation_with_tool_results`.
  unfoldable pub put_results : Table ToolResult → List Message → List Message
  put_results [] messages = messages
  put_results ((id, r) ∷ results) messages =
      put_results results (upsert_tool_message l id r messages)

  -- `continuation_with_tool_results`; `none` is the `ValueError`.
  unfoldable pub continuation_with_tool_results :
      Continuation l → Table ToolResult → Option (Continuation l)
  unfolding same_group put_results
  continuation_with_tool_results c results =
      if same_group c.pending_tool_calls results
      then some (record c { messages = put_results results c.messages })
      else none
