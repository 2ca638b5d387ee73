-- ===== src/Clarification/Answers.antt =====
-- clarification/interaction.py, `validate_clarification_answers`.
use my_digital_brain.Base.{
  Bool, true, false, not, ◌&&◌, ◌||◌, ltb, Option, none, some, List, [], ◌∷◌, map, if◌then◌else◌,
  holds, length, elem, Text, text_discrete,
}
use my_digital_brain.Clarification.Contracts.{
  ResponseMode, single_choice, multiple_choice, confirmation, choice_or_text, Choice, Question,
  Packet, Answer, AnswerPacket, has_content, any, filter, is_open,
}

-- The codes of `ClarificationValidationError`, with the question and the unknown options.
pub data AnswerError : Type 0 where
  packet_mismatch : AnswerError
  frame_mismatch : AnswerError
  tool_call_mismatch : AnswerError
  question_unknown : Text → AnswerError
  option_unknown : Text → List Text → AnswerError
  option_cardinality : Text → AnswerError
  response_mode_mismatch : Text → AnswerError
  answer_required : Text → AnswerError
  custom_answer_not_allowed : Text → AnswerError

-- `{question.question_id: question for question in questions}.get(id)`: the last one wins.
unfoldable pub question_of : Text → List Question → Option Question
question_of id [] = none
question_of id (q ∷ questions) = elim (question_of id questions) [
  | some later ↦ some later
  | none ↦ if holds (text_discrete q.question_id id) then some q else none
]

-- The modes that accept one option at most.
unfoldable pub is_single : ResponseMode → Bool
is_single single_choice = true
is_single confirmation = true
is_single choice_or_text = true
is_single _ = false

unfoldable pub is_multiple : ResponseMode → Bool
is_multiple multiple_choice = true
is_multiple _ = false

unfoldable pub unknown_options : Question → Answer → List Text
unfolding filter
unknown_options q a =
    filter (λ id. not (elem text_discrete id (map (λ (o : Choice). o.option_id) q.options)))
      a.selected_option_ids

-- `has_text or has_audio`
unfoldable pub has_reply : Answer → Bool
unfolding has_content
has_reply a = has_content a.text || has_content a.audio_media_ref

-- `has_text or has_audio or has_normalized_text`
unfoldable pub has_custom : Answer → Bool
unfolding has_reply
has_custom a = has_reply a || has_content a.normalized_text

-- One round of the loop, for an answer to the question.
unfoldable pub check_answer : Question → Answer → Option AnswerError
unfolding unknown_options has_custom is_single is_multiple any
check_answer q a =
    if any (unknown_options q a)
    then some (option_unknown a.question_id (unknown_options q a))
    else if is_single q.response_mode && ltb 1 (length a.selected_option_ids)
    then some (option_cardinality a.question_id)
    else if is_open q.response_mode && any a.selected_option_ids
    then some (response_mode_mismatch a.question_id)
    else if is_multiple q.response_mode && not (any a.selected_option_ids) && not (has_reply a)
    then some (answer_required a.question_id)
    else if q.required && not (has_custom a) && not (any a.selected_option_ids)
    then some (answer_required a.question_id)
    else if has_custom a && not q.allow_custom_answer
    then some (custom_answer_not_allowed a.question_id)
    else none

-- The answer is looked up and checked.
unfoldable pub check_one : List Question → Answer → Option AnswerError
unfolding question_of check_answer
check_one questions a = elim (question_of a.question_id questions) [
  | none ↦ some (question_unknown a.question_id)
  | some q ↦ check_answer q a
]

-- The loop: the first error is raised.
unfoldable pub check_answers : List Question → List Answer → Option AnswerError
unfolding check_one
check_answers questions [] = none
check_answers questions (a ∷ answers) = elim (check_one questions a) [
  | some error ↦ some error
  | none ↦ check_answers questions answers
]

-- `packet.tool_call_id and answers.tool_call_id != packet.tool_call_id`
unfoldable pub other_tool_call : Option Text → Text → Bool
other_tool_call none id = false
other_tool_call (some []) id = false
other_tool_call (some (c ∷ s)) id = not (holds (text_discrete id (c ∷ s)))

-- `validate_clarification_answers`; `none` is a return without an error.
unfoldable pub validate_clarification_answers : Packet → AnswerPacket → Option AnswerError
unfolding check_answers other_tool_call
validate_clarification_answers p a =
    if not (holds (text_discrete a.packet_id p.packet_id))
    then some packet_mismatch
    else if not (holds (text_discrete a.frame_id p.frame_id))
    then some frame_mismatch
    else if other_tool_call p.tool_call_id a.tool_call_id
    then some tool_call_mismatch
    else check_answers p.questions a.answers
