-- ===== src/Tests/Clarification.antt =====
-- Clarification packets at concrete inputs.
use my_digital_brain.Clarification.Answers.{
  check_answer, check_answers, check_one, has_custom, has_reply, is_multiple, is_single,
  other_tool_call, question_of, unknown_options, validate_clarification_answers,
}
use my_digital_brain.Clarification.Build.{
  PacketDraft, build_clarification_packet, default_mode, draft_kind, draft_mode, draft_options,
  draft_question, draft_questions, id_or_new, kind_of, with_history,
}
use my_digital_brain.Clarification.Build.Refs.{IsSafe, build_clarification_packet-IsSafe}
use my_digital_brain.Clarification.Contracts.{
  Answer, AnswerPacket, Packet, Question, all_distinct, any, build_packet, build_question,
  check_allowed, check_summaries, choice_or_text, filled, filter, has_content, is_confirmation,
  is_free_form, is_open, is_option, looks_like_persisted_id, missing_summaries, nonempty,
  option_ids, option_summaries_required, packet_refs, question_ids, question_refs,
  validate_model_refs, validate_semantics, identity_ambiguous,
}
use my_digital_brain.Clarification.Handoff.{
  HandoffRequest, ResolutionReport, difference, resolved, validate_against,
}
use my_digital_brain.Clarification.Progress.{
  Progress, answer_packet_from_progress, earlier_answers, first_open, merge_clarification_progress,
  progress_of, store_answers,
}
use my_digital_brain.Clarification.Progress.Complete.{
  after_turns, complete_progress-Accepted, take_answers,
}
use my_digital_brain.Base.{
  Bool, List, Text, [], codes, false, get, insert, is_space, lookup, lstrip, map, none, ok, put,
  refl, some, starts_with, strip, text_discrete, true, ℕ, ℕ_discrete, ◌∷◌, ◌≡◌,
}

abbrev no_uuid : Text → Bool
no_uuid s = false

abbrev uuid : ℕ → Text
uuid n = codes "u"

abbrev draft : PacketDraft
draft = record {
  frame_id = codes "f";
  origin_state_id = codes "write";
  reason = codes "who";
  questions =
      record {
        question_id = some (codes "q1");
        question = codes "Which Anna?";
        kind = some (codes "identity_ambiguous");
        response_mode = none;
        options =
            record {
              option_id = some (codes "o1");
              target_ref = some (codes "node_0001");
              label = codes "Anna";
              summary = some (codes "a friend");
              recommended = true;
            }
            ∷ [];
        target_refs = [];
        evidence_refs = [];
        allow_custom_answer = true;
        required = true;
      }
      ∷ [];
  tool_call_id = some (codes "t");
  tool_name = none;
  target_refs = codes "node_0001" ∷ [];
  history_delta = record { by_assistant = true; content = codes "Which?" } ∷ [];
  allowed_refs = some (codes "node_0001" ∷ []);
}

abbrev question : Question
question = record {
  question_id = codes "q1";
  question = codes "Which Anna?";
  kind = identity_ambiguous;
  response_mode = choice_or_text;
  options =
      record {
        option_id = codes "o1";
        target_ref = some (codes "node_0001");
        label = codes "Anna";
        summary = some (codes "a friend");
        recommended = true;
      }
      ∷ [];
  target_refs = [];
  evidence_refs = [];
  allow_custom_answer = true;
  required = true;
}

abbrev packet : Packet
packet = record {
  packet_id = codes "u";
  frame_id = codes "f";
  tool_call_id = some (codes "t");
  tool_name = none;
  origin_state_id = codes "write";
  reason = codes "who";
  questions = question ∷ [];
  target_refs = codes "node_0001" ∷ [];
  history_delta = record { by_assistant = true; content = codes "Which?" } ∷ [];
}

drafted : build_clarification_packet no_uuid uuid draft ≡ ok packet
unfolding build_clarification_packet draft_questions nonempty strip lstrip is_space draft_question
    id_or_new draft_kind kind_of draft_mode default_mode draft_options text_discrete ℕ_discrete
    build_question is_option validate_semantics check_summaries option_summaries_required
    missing_summaries has_content is_open is_confirmation is_free_form any build_packet all_distinct
    option_ids validate_model_refs packet_refs question_refs filled filter looks_like_persisted_id
    starts_with check_allowed with_history
drafted = refl

build_clarification_packet-IsSafe_example :
    (build_packet packet ≡ ok packet) × IsSafe no_uuid (codes "node_0001" ∷ []) (packet_refs packet)
build_clarification_packet-IsSafe_example =
    build_clarification_packet-IsSafe no_uuid uuid draft (codes "node_0001" ∷ []) packet refl
      drafted

abbrev reply : Text → Answer
reply id = record {
  question_id = codes "q1";
  selected_option_ids = id ∷ [];
  text = none;
  audio_media_ref = none;
  normalized_text = none;
}

abbrev turn_of : Answer → AnswerPacket
turn_of a = record {
  packet_id = codes "u";
  frame_id = codes "f";
  tool_call_id = codes "t";
  answers = a ∷ [];
}

abbrev turns : List AnswerPacket
turns = turn_of (reply (codes "o9")) ∷ turn_of (reply (codes "o1")) ∷ []

abbrev given : Progress
given = record {
  packet_id = codes "u";
  answered_question_ids = codes "q1" ∷ [];
  current_question_id = none;
  is_complete = true;
  answers_by_question_id = (codes "q1", reply (codes "o1")) ∷ [];
}

valid : build_packet packet ≡ ok packet
unfolding build_packet any all_distinct option_ids text_discrete ℕ_discrete
valid = refl

ends : after_turns packet none turns ≡ some given
unfolding after_turns take_answers validate_clarification_answers other_tool_call check_answers
    check_one question_of check_answer unknown_options has_custom has_reply has_content is_single
    is_multiple is_open any filter merge_clarification_progress progress_of store_answers
    earlier_answers first_open text_discrete ℕ_discrete get put lookup insert
ends = refl

complete_progress-Accepted_example :
    (whole : AnswerPacket) × (answer_packet_from_progress packet given ≡ ok whole)
    × (validate_clarification_answers packet whole ≡ none)
    × (map (λ (x : Answer). x.question_id) whole.answers ≡ question_ids packet.questions)
complete_progress-Accepted_example = complete_progress-Accepted packet turns given valid ends refl

abbrev handoff : HandoffRequest
handoff = record {
  doubts =
      record {
        doubt_id = codes "d1";
        doubt = codes "Which Anna?";
        refs = [];
        missing_information = none;
        why_blocking = none;
        evidence_refs = [];
      }
      ∷ [];
  invoker_state_id = codes "write";
  invoker_tool_call_id = none;
  parent_frame_id = none;
}

abbrev report : ResolutionReport
report = record {
  entries =
      record {
        doubt_id = codes "d1";
        status = resolved;
        questions = [];
        user_answers = [];
        selected_refs = codes "node_0001" ∷ [];
        evidence_refs = [];
        remaining_uncertainty = none;
      }
      ∷ [];
  summary = codes "";
}

report-valid : validate_against report handoff ≡ ok tt
unfolding validate_against difference all_distinct filter any text_discrete ℕ_discrete
report-valid = refl
