-- ===== src/Session/Batch/Answers.antt =====
-- Every tool call of a turn is answered by a tool message, and no call is lost.
use my_digital_brain.Base.{
  Bool-cases, Option-cases, inl, inr, ◌+◌, ℕ, ◌≡◌, Bool, true, List, [], ◌∷◌, arith, some_of, Text,
}
use my_digital_brain.Session.Types.{Message, RawCall, Library, Event, ToolResult}
use my_digital_brain.Session.Batch.{
  Round, run_calls, pending_events, question_count, more_than_five, answer_all, reject_batch,
  accept_batch, execute_batch, call_ids,
}
use my_digital_brain.Session.Packets.{packets, combined_packet, with_packet}
use my_digital_brain.Session.Tools.{
  ToolMapping, pending_tool_call, execute, tool_message, answers, upsert_tool_message,
}

module _ (l : Library) where
  -- Is there a tool message for the call?
  abbrev pub is_answered : Text → List Message → Bool
  is_answered id messages = some_of (answers l id) messages

  answers-tool_message : (id : Text) (r : ToolResult) → answers l id (tool_message l id r) ≡ true
  unfolding answers tool_message
  answers-tool_message id r = ground arith

  answers_same :
      (id j : Text) (r : ToolResult) (m : Message)
      → answers l id m ≡ true
      → answers l j m ≡ true
      → answers l j (tool_message l id r) ≡ true
  unfolding answers tool_message
  answers_same id j r m h k = ground arith

  is_answered-upsert :
      (id : Text) (r : ToolResult) (messages : List Message)
      → is_answered id (upsert_tool_message l id r messages) ≡ true
  unfolding upsert_tool_message
  is_answered-upsert id r [] = ground (arith, answers-tool_message id r)
  is_answered-upsert id r (m ∷ messages) =
      ground (arith, answers-tool_message id r, is_answered-upsert id r messages)

  upsert-keeps :
      (id j : Text) (r : ToolResult) (messages : List Message)
      → is_answered j messages ≡ true
      → is_answered j (upsert_tool_message l id r messages) ≡ true
  unfolding upsert_tool_message
  upsert-keeps id j r [] h = cc
  upsert-keeps id j r (m ∷ messages) h =
      ground (arith, answers_same id j r m, upsert-keeps id j r messages)

  answer_all-keeps :
      (f : ToolResult → ToolResult) (events : List (Event l)) (j : Text) (messages : List Message)
      → is_answered j messages ≡ true
      → is_answered j (answer_all l f events messages) ≡ true
  unfolding answer_all
  answer_all-keeps f [] j messages h = h
  answer_all-keeps f (e ∷ events) j messages h =
      answer_all-keeps f events j _ (upsert-keeps e.call.call_id j (f e.result) messages h)

  run_calls-keeps :
      (mapping : ToolMapping l) (n : ℕ) (raws : List RawCall) (s : Round l) (j : Text)
      → is_answered j s.messages ≡ true
      → is_answered j (run_calls l mapping n raws s).messages ≡ true
  unfolding run_calls
  run_calls-keeps mapping n [] s j h = h
  run_calls-keeps mapping n (raw ∷ raws) s j h =
      run_calls-keeps mapping (n + 1) raws _ j (upsert-keeps _ j _ s.messages h)

  -- Each of the calls is answered.
  abbrev pub AllAnswered : List RawCall → List Message → Type 0
  AllAnswered [] messages = Unit
  AllAnswered (raw ∷ raws) messages =
      (is_answered (pending_tool_call l raw).call_id messages ≡ true) × AllAnswered raws messages

  AllAnswered-keeps :
      (raws : List RawCall) (before after : List Message)
      → ((j : Text) → is_answered j before ≡ true → is_answered j after ≡ true)
      → AllAnswered raws before
      → AllAnswered raws after
  AllAnswered-keeps [] before after keeps h = h
  AllAnswered-keeps (raw ∷ raws) before after keeps h =
      (keeps _ h.0, AllAnswered-keeps raws before after keeps h.1)

  run_calls-AllAnswered :
      (mapping : ToolMapping l) (n : ℕ) (raws : List RawCall) (s : Round l)
      → AllAnswered raws (run_calls l mapping n raws s).messages
  unfolding run_calls
  run_calls-AllAnswered mapping n [] s = tt
  run_calls-AllAnswered mapping n (raw ∷ raws) s =
      let call = pending_tool_call l raw in
      (
        run_calls-keeps mapping (n + 1) raws _ call.call_id
            (is_answered-upsert call.call_id (execute l mapping n call) s.messages),
        run_calls-AllAnswered mapping (n + 1) raws _,
      )

  reject-keeps :
      (s : Round l) (j : Text)
      → is_answered j s.messages ≡ true
      → is_answered j (reject_batch l s).messages ≡ true
  unfolding reject_batch
  reject-keeps s j h = answer_all-keeps _ (pending_events l s.events) j s.messages h

  accept-keeps :
      (n : ℕ) (s : Round l) (j : Text)
      → is_answered j s.messages ≡ true
      → is_answered j (accept_batch l n s).messages ≡ true
  unfolding accept_batch
  accept-keeps n s j h =
      elim (Option-cases (combined_packet l n (packets l (pending_events l s.events)))) [
        | inl e ↦ ground arith
        | inr (packet, e) ↦
            let ids = call_ids l (pending_events l s.events) in
            ground (
              arith,
              answer_all-keeps (with_packet l packet ids) (pending_events l s.events) j s.messages
                  h,
            )
      ]

  -- After the batch, whether it is accepted or refused, every call of the turn has a tool message.
  pub execute_batch-AllAnswered :
      (mapping : ToolMapping l) (n : ℕ) (raws : List RawCall) (messages : List Message)
      → AllAnswered raws (execute_batch l mapping n raws messages).messages
  unfolding execute_batch
  execute_batch-AllAnswered mapping n raws messages =
      let s = run_calls l mapping n raws (record { events = []; messages = messages }) in
      let h = run_calls-AllAnswered mapping n raws (record { events = []; messages = messages }) in
      elim (Bool-cases (more_than_five (question_count l (pending_events l s.events)))) [
        | inl over ↦
            rw over
              (AllAnswered-keeps raws s.messages (reject_batch l s).messages (reject-keeps s) h)
        | inr fits ↦
            rw fits
              (AllAnswered-keeps raws s.messages (accept_batch l n s).messages (accept-keeps n s) h)
      ]
