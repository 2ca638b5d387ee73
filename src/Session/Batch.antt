-- ===== src/Session/Batch.antt =====
-- `_execute_batch` of ai/session/runner.py: the tool calls of one assistant turn.
pub mod Answers
pub mod Questions
use my_digital_brain.Base.{
  ℕ, ◌+◌, Bool, true, false, ◌&&◌, Option, none, some, List, [], ◌∷◌, ◌++◌, map, ltb, if◌then◌else◌,
  holds, elem, Text, codes, text_discrete, Table, get,
}
use my_digital_brain.Session.Types.{
  tool, role_discrete, RawCall, Message, Packet, ToolResult, is_pending, Output, result, structured,
  nothing, plain, raised, Library, PendingCall, Event,
}
use my_digital_brain.Session.Tools.{
  ToolMapping, answers, error_status, execute, normalize_output, ok_status, pending_tool_call,
  success, text_or, tool_message, upsert_tool_message,
}
use my_digital_brain.Session.Packets.{
  clarification_group, combine, combined_packet, distinct, packets, questions_of, targets_of,
  with_packet,
}

-- `_question_batch_overflow` counts these.
unfoldable pub is_question : ToolResult → Bool
is_question r = elim r.payload [
  | none ↦ false
  | some p ↦ elim p.interaction_group [
    | none ↦ false
    | some g ↦ holds (text_discrete g clarification_group)
  ]
]

-- `n > 5`
unfoldable pub more_than_five : ℕ → Bool
more_than_five n = ltb 5 n

abbrev pub overflow_message : Text
overflow_message =
    codes
      "This assistant turn requested more than five clarification questions. No question was discarded; split the questions across later turns."

module _ (l : Library) where
  pub record Round : Type 0 where
    pub events : List (Event l)
    pub messages : List Message

  -- The loop of `_execute_batch`; `n` counts the calls of the session.
  unfoldable pub run_calls : ToolMapping l → ℕ → List RawCall → Round → Round
  unfolding execute
  run_calls mapping n [] s = s
  run_calls mapping n (raw ∷ raws) s =
      let call = pending_tool_call l raw in
      let r = execute l mapping n call in
      run_calls mapping (n + 1) raws (record {
        events = s.events ++ record { call = call; result = r } ∷ [];
        messages = upsert_tool_message l call.call_id r s.messages;
      })

  -- `pending_events`, and by their calls `pending_calls`
  unfoldable pub pending_events : List (Event l) → List (Event l)
  pending_events [] = []
  pending_events (e ∷ events) =
      if is_pending e.result then e ∷ pending_events events else pending_events events

  -- `_question_batch_overflow`
  unfoldable pub question_count : List (Event l) → ℕ
  question_count [] = 0
  question_count (e ∷ events) = (if is_question e.result then 1 else 0) + question_count events

  abbrev pub call_ids : List (Event l) → List Text
  call_ids = map (λ e. e.call.call_id)

  -- The error that every pending call of an overfull turn gets.
  unfoldable pub overflow_result : List Text → ToolResult
  overflow_result ids = record success {
    status = error_status;
    output = some overflow_message;
    error = some (record {
      message = overflow_message;
      code = codes "clarification_packet_limit_exceeded";
      hint = some (codes "Retry with at most five questioning tool calls in this turn.");
      retryable = true;
      tool_call_ids = ids;
    });
  }

  -- `event.result = f(event.result)` for the pending events: the list of all events holds the same
  -- objects.
  unfoldable pub update_pending : (ToolResult → ToolResult) → List (Event l) → List (Event l)
  update_pending f [] = []
  update_pending f (e ∷ events) =
      (if is_pending e.result then record e { result = f e.result } else e)
      ∷ update_pending f events

  -- `_upsert_tool_message` for each of the events, with the results changed by `f`.
  unfoldable pub answer_all :
      (ToolResult → ToolResult) → List (Event l) → List Message → List Message
  answer_all f [] messages = messages
  answer_all f (e ∷ events) messages =
      answer_all f events (upsert_tool_message l e.call.call_id (f e.result) messages)

  -- `pending_interaction`, without the dump of the results
  pub record Interaction : Type 0 where
    pub tool_call_ids : List Text
    pub clarification_packet : Option Packet

  pub record BatchResult : Type 0 where
    pub pending : List (PendingCall l)
    pub interaction : Interaction
    pub events : List (Event l)
    pub messages : List Message

  -- `_execute_batch` after its loop, for a turn with too many questions
  unfoldable pub reject_batch : Round → BatchResult
  unfolding answer_all update_pending overflow_result
  reject_batch s =
      let waiting = pending_events s.events in
      let refuse : ToolResult → ToolResult = λ r. overflow_result (call_ids waiting) in
      record {
        pending = [];
        interaction = record { tool_call_ids = []; clarification_packet = none };
        events = update_pending refuse s.events;
        messages = answer_all refuse waiting s.messages;
      }

  -- `_execute_batch` after its loop, otherwise
  unfoldable pub accept_batch : ℕ → Round → BatchResult
  unfolding answer_all update_pending packets combined_packet with_packet
  accept_batch n s =
      let waiting = pending_events s.events in
      let ids = call_ids waiting in
      let calls = map (λ (e : Event l). e.call) waiting in
      elim (combined_packet l n (packets l waiting)) [
        | none ↦ record {
          pending = calls;
          interaction = record { tool_call_ids = ids; clarification_packet = none };
          events = s.events;
          messages = s.messages;
        }
        | some packet ↦ record {
          pending = calls;
          interaction = record { tool_call_ids = ids; clarification_packet = some packet };
          events = update_pending (with_packet l packet ids) s.events;
          messages = answer_all (with_packet l packet ids) waiting s.messages;
        }
      ]

  -- `_execute_batch`
  unfoldable pub execute_batch : ToolMapping l → ℕ → List RawCall → List Message → BatchResult
  unfolding run_calls pending_events question_count more_than_five reject_batch accept_batch
  execute_batch mapping n raws messages =
      let s = run_calls mapping n raws (record { events = []; messages = messages }) in
      if more_than_five (question_count (pending_events s.events))
      then reject_batch s
      else accept_batch n s
