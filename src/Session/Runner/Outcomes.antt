-- ===== src/Session/Runner/Outcomes.antt =====
-- What a completed session returns.
use my_digital_brain.Base.{
  Bool, true, codes, ℕ, zero, suc, ◌+◌, Bool-cases, Option-cases, ◌≢◌, ◌≡◌, inl, inr, false, Option,
  none, some, List, [], ◌∷◌, ◌++◌, arith, List-cases, Text,
}
use my_digital_brain.Session.Types.{Message, Library, Event, RawCall}
use my_digital_brain.Session.Runner.Ends.{Turn-cases}
use my_digital_brain.Session.Runner.{
  start, initial_messages, completion_request, final_turn, repair_turn, tool_turn, after_batch,
  Provider, run_loop, run_turns, resume, run, messages_or, id_or, all_answered, turn,
}
use my_digital_brain.Session.Contracts.{
  Request, Outcome, completed, awaiting, failed, Loop, stop, Continuation,
}

module _ (l : Library) where
  -- Does the content pass the check, if there is one?
  abbrev pub accepts : Option (Text → Option Text) → Text → Bool
  accepts none content = true
  accepts (some check) content = elim (check content) [ none ↦ true | some error ↦ false ]

  -- The output that the session returns passed its check.
  abbrev pub IsSound : Request l → Outcome l → Type 0
  IsSound request (completed messages content events) = accepts request.output_schema content ≡ true
  IsSound request (awaiting messages c events) = Unit
  IsSound request (failed messages error events) = Unit

  final-completed :
      (request : Request l) (s : Loop l) (text : Text) (messages : List Message) (content : Text)
      (events : List (Event l))
      → final_turn l request s text ≡ stop (completed messages content events)
      → (s.continuation_required ≡ false)
        × (content ≡ text)
        × (messages ≡ s.messages)
        × IsSound request (completed messages content events)
  unfolding final_turn repair_turn
  final-completed request s text messages content events h =
      elim (Option-cases request.output_schema) [
        | inl plain ↦ (ground arith, ground arith, ground arith, ground arith)
        | inr (check, has_schema) ↦ elim (Option-cases (check text)) [
          | inl valid ↦ (ground arith, ground arith, ground arith, ground arith)
          | inr (error, invalid) ↦ absurd (ground arith)
        ]
      ]

  tools_not_completed :
      (request : Request l) (s : Loop l) (calls : List RawCall) (messages : List Message)
      (content : Text) (events : List (Event l))
      → tool_turn l request s calls ≢ stop (completed messages content events)
  unfolding tool_turn after_batch
  tools_not_completed request s calls messages content events h = ground arith

  -- A turn completes the session only if no follow-up is required, the reply calls no tool, its
  -- content is what is returned, and the content passes the check of the schema, if there is one.
  pub turn-completed :
      (request : Request l) (s : Loop l) (reply : Message) (messages : List Message)
      (content : Text) (events : List (Event l))
      → turn l request s reply ≡ stop (completed messages content events)
      → (s.continuation_required ≡ false)
        × (reply.tool_calls ≡ [])
        × (content ≡ reply.content)
        × (messages ≡ s.messages ++ reply ∷ [])
        × IsSound request (completed messages content events)
  unfolding turn
  turn-completed request s reply messages content events h = elim (List-cases reply.tool_calls) [
    | inl final ↦
        let (settled, same, sent, sound) =
          final-completed request (record s { messages = s.messages ++ reply ∷ [] }) reply.content
            messages content events (ground arith) in
        (settled, final, same, sent, sound)
    | inr (call, calls, e) ↦ absurd (
        tools_not_completed request (record s { messages = s.messages ++ reply ∷ [] })
          (call ∷ calls) messages content events (ground arith))
  ]

  turn-IsSound :
      (request : Request l) (s : Loop l) (reply : Message) (o : Outcome l)
      → turn l request s reply ≡ stop o
      → IsSound request o
  turn-IsSound request s reply (completed messages content events) h =
      (turn-completed request s reply messages content events h).4
  turn-IsSound request s reply (awaiting messages c events) h = tt
  turn-IsSound request s reply (failed messages error events) h = tt

  run_loop-IsSound :
      (fuel : ℕ) (provider : Provider l) (request : Request l) (n : ℕ) (s : Loop l) (o : Outcome l)
      → run_loop l fuel provider request n s ≡ some o
      → IsSound request o
  unfolding run_loop
  run_loop-IsSound zero provider request n s o h = absurd (ground arith)
  run_loop-IsSound (suc fuel) provider request n s o h =
      let reply = provider n (completion_request l s) in
      elim (Turn-cases (turn l request s reply)) [
        | inl (o', e) ↦ turn-IsSound request s reply o (ground arith)
        | inr (s', e) ↦ run_loop-IsSound fuel provider request (n + 1) s' o (ground arith)
      ]

  run_turns-IsSound :
      (fuel : ℕ) (provider : Provider l) (request : Request l) (session_id : Text)
      (messages : List Message) (events : List (Event l)) (executed : ℕ) (o : Outcome l)
      → run_turns l fuel provider request session_id messages events executed ≡ some o
      → IsSound request o
  unfolding run_turns
  run_turns-IsSound fuel provider request session_id messages events executed o h =
      run_loop-IsSound fuel provider request 0 (start l request session_id messages events executed)
        o h

  resume-IsSound :
      (fuel : ℕ) (provider : Provider l) (request : Request l) (c : Continuation l) (o : Outcome l)
      → resume l fuel provider request c ≡ some o
      → IsSound request o
  unfolding resume
  resume-IsSound fuel provider request c (completed messages content events) h =
      elim (Bool-cases (all_answered l c (messages_or l request.messages c.messages))) [
        | inl ready ↦
            run_turns-IsSound fuel provider
              (record request {
                continuation = none;
                session_id = id_or l request.session_id c.session_id;
              })
              (id_or l request.session_id c.session_id) (messages_or l request.messages c.messages)
              c.tool_events c.tool_calls_used (completed messages content events) (ground arith)
        | inr waiting ↦ absurd (ground arith)
      ]
  resume-IsSound fuel provider request c (awaiting messages c' events) h = tt
  resume-IsSound fuel provider request c (failed messages error events) h = tt

  -- Whatever the provider and the tools answer: the output of a session that completes, fresh or
  -- resumed, passed the check of the request's schema.
  pub run-IsSound :
      (fuel : ℕ) (provider : Provider l) (request : Request l) (o : Outcome l)
      → run l fuel provider request ≡ some o
      → IsSound request o
  unfolding run
  run-IsSound fuel provider request o h = elim (Option-cases request.continuation) [
    | inl fresh ↦
        run_turns-IsSound fuel provider request (id_or l request.session_id (codes "session-local"))
          (initial_messages l request) [] 0 o (ground arith)
    | inr (c, resumed) ↦ resume-IsSound fuel provider request c o (ground arith)
  ]
