-- ===== src/Tests/Session.antt =====
-- A session at concrete inputs: a provider that calls one tool and then replies.
use my_digital_brain.Session.Batch.{
  accept_batch, answer_all, execute_batch, is_question, more_than_five, overflow_result,
  pending_events, question_count, reject_batch, run_calls, update_pending,
}
use my_digital_brain.Session.Batch.Answers.{AllAnswered, execute_batch-AllAnswered}
use my_digital_brain.Session.Batch.Questions.{
  IsConsistent, asked, calls_made, calls_of, execute_batch-events, execute_batch-overflow,
}
use my_digital_brain.Session.Contracts.{
  Completion, Continuation, Loop, Outcome, Request, at, completed, failed, stop,
}
use my_digital_brain.Session.Packets.{clarification_group, combined_packet, packets, with_packet}
use my_digital_brain.Session.Runner.{
  Provider, after_batch, all_answered, answered, any_continuation, cap_reached, completion_request,
  continuation_with_tool_results, final_turn, has_tools, id_or, initial_messages, messages_or,
  put_results, repair_message, repair_turn, resume, run, run_loop, run_turns, same_group, start,
  tool_turn, turn,
}
use my_digital_brain.Session.Runner.Ends.{run_turns_end}
use my_digital_brain.Session.Runner.Outcomes.{IsSound, run-IsSound, turn-completed}
use my_digital_brain.Session.Runner.Resume.{resume-continuation_with_tool_results}
use my_digital_brain.Session.Tools.{
  ToolMapping, answers, execute, normalize_output, pending_tool_call, success, text_or,
  tool_message, upsert_tool_message,
}
use my_digital_brain.Session.Types.{
  Library, Message, RawCall, ToolResult, assistant, is_pending, pending_status, result,
  role_discrete,
}
use my_digital_brain.Base.{
  List, Option, Table, Text, [], arith, codes, false, get, holds, lookup, none, refl, some,
  text_discrete, true, ℕ, ℕ_discrete, ◌<◌, ◌∷◌, ◌≡◌, if◌then◌else◌, ◌&&◌, ◌==◌,
}

dumped : (r : ToolResult) → holds (text_discrete r.status pending_status) ≡ is_pending r
unfolding is_pending
dumped r = refl

abbrev library : Library
library = record {
  Arguments = Text;
  no_arguments = [];
  loads = λ s. some s;
  dump = λ r. r.status;
  says_pending = λ s. holds (text_discrete s pending_status);
  uuid = λ n. n ∷ [];
  render = λ p. p.packet_id;
  says_pending-dump = dumped;
}

abbrev settled : ToolResult
settled = record success { output = some (codes "found") }

abbrev asking : ToolResult
asking = record success {
  status = pending_status;
  payload = some (record {
    interaction_group = some clarification_group;
    clarification_packet = none;
    tool_call_ids = [];
    rest = [];
  });
}

abbrev mapping : ToolMapping library
mapping = (codes "find", λ n a. result settled) ∷ (codes "ask", λ n a. result asking) ∷ []

abbrev find : RawCall
find = record { id = some (codes "c1"); name = some (codes "find"); arguments = some (codes "{}") }

abbrev ask : Text → RawCall
ask call_id = record { id = some call_id; name = some (codes "ask"); arguments = none }

abbrev questions : List RawCall
questions =
    ask (codes "q1")
    ∷ ask (codes "q2")
    ∷ ask (codes "q3")
    ∷ ask (codes "q4")
    ∷ ask (codes "q5")
    ∷ ask (codes "q6")
    ∷ []

abbrev say : Text → List RawCall → Message
say text calls = record {
  role = assistant;
  content = text;
  tool_call_id = none;
  tool_calls = calls;
}

abbrev provider : Provider library
provider n c = if c.tools_offered && (n == 0) then say [] (find ∷ []) else say (codes "done") []

abbrev check : Text → Option Text
check s = if holds (text_discrete s (codes "done")) then none else some (codes "not done")

abbrev request : Request library
request = record {
  system_prompt = codes "system";
  messages = say (codes "hello") [] ∷ [];
  has_toolbox = true;
  tools_mapping = mapping;
  max_tool_calls = at 3;
  output_schema = some check;
  max_output_repairs = 1;
  force_tool_follow_up = false;
  session_id = [];
  continuation = none;
}

obeys : (n : ℕ) (c : Completion library) → c.tools_offered ≡ false → (provider n c).tool_calls ≡ []
obeys n c h = ground arith

run_turns_end_example :
    (o : Outcome library) × (run_turns library 6 provider request (codes "s") request.messages [] 0
      ≡ some o)
run_turns_end_example =
    run_turns_end library request provider (λ e. ground arith) obeys (codes "s") request.messages []
      0

abbrev outcome : Outcome library
outcome = elim (run library 6 provider request) [ some o ↦ o | none ↦ failed [] [] [] ]

ends : run library 6 provider request ≡ some outcome
unfolding run resume run_turns run_loop start turn tool_turn after_batch final_turn repair_turn
    repair_message completion_request has_tools cap_reached any_continuation initial_messages id_or
    messages_or execute_batch run_calls execute pending_tool_call text_or normalize_output
    tool_message answers upsert_tool_message pending_events question_count is_question
    more_than_five reject_batch accept_batch answer_all update_pending overflow_result packets
    combined_packet with_packet is_pending text_discrete ℕ_discrete role_discrete get lookup
    same_group put_results continuation_with_tool_results answered all_answered
ends = refl

run-IsSound_example : IsSound library request outcome
run-IsSound_example = run-IsSound library 6 provider request outcome ends

abbrev head : Loop library
head = record {
  session_id = codes "s";
  messages = [];
  events = [];
  executed = 0;
  repair_attempts = 0;
  tools_enabled = true;
  continuation_required = false;
}

completes :
    turn library request head (say (codes "done") [])
    ≡ stop (completed (say (codes "done") [] ∷ []) (codes "done") [])
unfolding run resume run_turns run_loop start turn tool_turn after_batch final_turn repair_turn
    repair_message completion_request has_tools cap_reached any_continuation initial_messages id_or
    messages_or execute_batch run_calls execute pending_tool_call text_or normalize_output
    tool_message answers upsert_tool_message pending_events question_count is_question
    more_than_five reject_batch accept_batch answer_all update_pending overflow_result packets
    combined_packet with_packet is_pending text_discrete ℕ_discrete role_discrete get lookup
    same_group put_results continuation_with_tool_results answered all_answered
completes = refl

turn-completed_example :
    (head.continuation_required ≡ false)
    × ((say (codes "done") []).tool_calls ≡ [])
    × (codes "done" ≡ codes "done")
    × (say (codes "done") [] ∷ [] ≡ say (codes "done") [] ∷ [])
    × IsSound library request (completed (say (codes "done") [] ∷ []) (codes "done") [])
turn-completed_example =
    turn-completed library request head (say (codes "done") []) (say (codes "done") [] ∷ [])
      (codes "done") [] completes

execute_batch-AllAnswered_example :
    AllAnswered library
      (find ∷ ask (codes "q1") ∷ [])
      (execute_batch library mapping 0 (find ∷ ask (codes "q1") ∷ []) []).messages
execute_batch-AllAnswered_example =
    execute_batch-AllAnswered library mapping 0 (find ∷ ask (codes "q1") ∷ []) []

six : 5 < asked library mapping 0 questions []
unfolding run resume run_turns run_loop start turn tool_turn after_batch final_turn repair_turn
    repair_message completion_request has_tools cap_reached any_continuation initial_messages id_or
    messages_or execute_batch run_calls execute pending_tool_call text_or normalize_output
    tool_message answers upsert_tool_message pending_events question_count is_question
    more_than_five reject_batch accept_batch answer_all update_pending overflow_result packets
    combined_packet with_packet is_pending text_discrete ℕ_discrete role_discrete get lookup
    same_group put_results continuation_with_tool_results answered all_answered
six = omega arith

execute_batch-overflow_example :
    ((execute_batch library mapping 0 questions []).pending ≡ [])
    × (pending_events library (execute_batch library mapping 0 questions []).events ≡ [])
    × (calls_of library (execute_batch library mapping 0 questions []).events
        ≡ calls_made library questions)
execute_batch-overflow_example = execute_batch-overflow library mapping 0 questions [] six

abbrev two : List RawCall
two = find ∷ ask (codes "q1") ∷ []

execute_batch-events_example :
    (calls_of library (execute_batch library mapping 0 two []).events ≡ calls_made library two)
    × IsConsistent library (execute_batch library mapping 0 two [])
execute_batch-events_example = execute_batch-events library mapping 0 two []

abbrev waiting : Continuation library
waiting = record {
  session_id = codes "s";
  messages = say (codes "hello") [] ∷ [];
  pending_tool_calls = record { call_id = codes "q1"; name = codes "ask"; arguments = [] } ∷ [];
  interaction = record { tool_call_ids = codes "q1" ∷ []; clarification_packet = none };
  tool_events = [];
  tool_calls_used = 1;
}

abbrev answers_given : Table ToolResult
answers_given = (codes "q1", settled) ∷ []

abbrev resumed : Continuation library
resumed = record waiting {
  messages = say (codes "hello") [] ∷ tool_message library (codes "q1") settled ∷ [];
}

abbrev bare : Request library
bare = record request { messages = [] }

given : continuation_with_tool_results library waiting answers_given ≡ some resumed
unfolding run resume run_turns run_loop start turn tool_turn after_batch final_turn repair_turn
    repair_message completion_request has_tools cap_reached any_continuation initial_messages id_or
    messages_or execute_batch run_calls execute pending_tool_call text_or normalize_output
    tool_message answers upsert_tool_message pending_events question_count is_question
    more_than_five reject_batch accept_batch answer_all update_pending overflow_result packets
    combined_packet with_packet is_pending text_discrete ℕ_discrete role_discrete get lookup
    same_group put_results continuation_with_tool_results answered all_answered
given = refl

not_waiting : is_pending settled ≡ false
unfolding is_pending text_discrete ℕ_discrete
not_waiting = refl

resume-continuation_with_tool_results_example :
    resume library 6 provider bare resumed
    ≡ run_turns library 6 provider
        (record bare { continuation = none; session_id = id_or library [] (codes "s") })
        (id_or library [] (codes "s"))
        resumed.messages
        []
        1
resume-continuation_with_tool_results_example =
    resume-continuation_with_tool_results library 6 provider bare waiting resumed answers_given refl
      given (not_waiting, tt)
