-- ===== src/Session/Runner/Resume.antt =====
-- A session that waits goes on when the results of one interaction answer every pending call.
use my_digital_brain.Base.{
  every, refl, ◌∷◌, none, ℕ, ◌≡◌, true, false, some, List, [], arith, Text, text_discrete, Table,
  get, has,
}
use my_digital_brain.Session.Types.{Message, Library, PendingCall, ToolResult, is_pending}
use my_digital_brain.Session.Tools.{answers, tool_message, upsert_tool_message}
use my_digital_brain.Session.Runner.{
  Provider, all_answered, messages_or, id_or, resume, run_turns, same_group,
  continuation_with_tool_results, answered, put_results,
}
use my_digital_brain.Session.Contracts.{Request, Continuation}

module _ (l : Library) where
  -- A result that waits for nothing answers its own call.
  answered-upsert :
      (r : ToolResult) (call : PendingCall l) (messages : List Message)
      → is_pending r ≡ false
      → answered l (upsert_tool_message l call.call_id r messages) call ≡ true
  unfolding answered upsert_tool_message answers tool_message
  answered-upsert r call [] settled = ground (arith, l.says_pending-dump r)
  answered-upsert r call (m ∷ messages) settled =
      ground (arith, l.says_pending-dump r, answered-upsert r call messages settled)

  -- and takes the answer from no other call.
  upsert-answered :
      (id : Text) (r : ToolResult) (call : PendingCall l) (messages : List Message)
      → is_pending r ≡ false
      → answered l messages call ≡ true
      → answered l (upsert_tool_message l id r messages) call ≡ true
  unfolding answered upsert_tool_message answers tool_message
  upsert-answered id r call [] settled h = cc
  upsert-answered id r call (m ∷ messages) settled h =
      ground (arith, l.says_pending-dump r, upsert-answered id r call messages settled)

  -- None of the results waits.
  abbrev pub AllSettled : Table ToolResult → Type 0
  AllSettled [] = Unit
  AllSettled ((id, r) ∷ results) = (is_pending r ≡ false) × AllSettled results

  put_results-keeps :
      (results : Table ToolResult) (call : PendingCall l) (messages : List Message)
      → AllSettled results
      → answered l messages call ≡ true
      → answered l (put_results l results messages) call ≡ true
  unfolding put_results
  put_results-keeps [] call messages settled h = h
  put_results-keeps ((id, r) ∷ results) call messages settled h =
      put_results-keeps results call _ settled.1 (upsert-answered id r call messages settled.0 h)

  put_results-answered :
      (results : Table ToolResult) (call : PendingCall l) (messages : List Message)
      → AllSettled results
      → has results call.call_id ≡ true
      → answered l (put_results l results messages) call ≡ true
  unfolding put_results get
  put_results-answered [] call messages settled h = cc
  put_results-answered ((id, r) ∷ results) call messages settled h =
      elim (text_discrete id call.call_id) [
        | yes p ↦
            rw p (
              put_results-keeps results call _ settled.1
                (answered-upsert r call messages settled.0))
        | no p ↦ put_results-answered results call _ settled.1 (ground arith)
      ]

  every-answered :
      (results : Table ToolResult) (calls : List (PendingCall l)) (messages : List Message)
      → AllSettled results
      → every (λ (c : PendingCall l). has results c.call_id) calls ≡ true
      → every (answered l (put_results l results messages)) calls ≡ true
  every-answered results [] messages settled h = refl
  every-answered results (c ∷ calls) messages settled h = ground (
    arith,
    put_results-answered results c messages settled,
    every-answered results calls messages settled,
  )

  settled_answers :
      (c c' : Continuation l) (results : Table ToolResult)
      → continuation_with_tool_results l c results ≡ some c'
      → AllSettled results
      → all_answered l c' c'.messages ≡ true
  unfolding continuation_with_tool_results all_answered same_group
  settled_answers c c' results h settled =
      ground (arith, every-answered results c.pending_tool_calls c.messages settled)

  -- A continuation that was given its results, none of which waits, goes on: for a request without
  -- messages of its own, the session resumes its turns with the messages, the events and the count
  -- of calls of the continuation, under the request's session id or else the continuation's.
  pub resume-continuation_with_tool_results :
      (fuel : ℕ) (provider : Provider l) (request : Request l) (c c' : Continuation l)
      (results : Table ToolResult)
      → request.messages ≡ []
      → continuation_with_tool_results l c results ≡ some c'
      → AllSettled results
      → resume l fuel provider request c'
        ≡ run_turns l fuel provider
            (record request {
              continuation = none;
              session_id = id_or l request.session_id c'.session_id;
            })
            (id_or l request.session_id c'.session_id)
            c'.messages
            c'.tool_events
            c'.tool_calls_used
  unfolding resume messages_or
  resume-continuation_with_tool_results fuel provider request c c' results bare h settled =
      rw (bare, resume, settled_answers c c' results h settled) refl
