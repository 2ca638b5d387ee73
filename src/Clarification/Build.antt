-- ===== src/Clarification/Build.antt =====
-- clarification/interaction.py, `build_clarification_packet` and `render_clarification_questions`.
pub mod Refs
use my_digital_brain.Base.{
  ℕ, suc, ◌+◌, Bool, true, false, not, ◌&&◌, ◌||◌, Option, none, some, List, [], ◌∷◌, ◌++◌, map,
  if◌then◌else◌, Text, codes, decimal, strip, Result, ok, err, text_discrete, holds,
}
use my_digital_brain.Clarification.Contracts.{
  Kind, identity_no_match, identity_ambiguous, missing_attribute, confirm_proposal,
  correct_conflict, relationship_target, explicit_discard, ResponseMode, free_text, single_choice,
  multiple_choice, confirmation, choice_or_text, text_or_audio, Choice, Question, HistoryMessage,
  Packet, Invalid, unknown_kind, unknown_mode, nonempty, any, build_question, build_packet,
  validate_model_refs,
}
use my_digital_brain.Clarification.Progress.{join}

-- The dictionaries of the caller; `none` stands for a missing or falsy value, a flag is the value
-- that `bool` makes of what is given.
pub record OptionDraft : Type 0 where
  pub option_id : Option Text
  pub target_ref : Option Text
  pub label : Text
  pub summary : Option Text
  pub recommended : Bool

pub record QuestionDraft : Type 0 where
  pub question_id : Option Text
  pub question : Text
  pub kind : Option Text
  pub response_mode : Option Text
  pub options : List OptionDraft
  pub target_refs : List Text
  pub evidence_refs : List Text
  pub allow_custom_answer : Bool
  pub required : Bool

pub record PacketDraft : Type 0 where
  pub frame_id : Text
  pub origin_state_id : Text
  pub reason : Text
  pub questions : List QuestionDraft
  pub tool_call_id : Option Text
  pub tool_name : Option Text
  pub target_refs : List Text
  pub history_delta : List HistoryMessage
  pub allowed_refs : Option (List Text)

-- `ClarificationKind(value)`
unfoldable pub kind_of : Text → Result Invalid Kind
unfolding text_discrete
kind_of s =
    if holds (text_discrete s (codes "identity_no_match"))
    then ok identity_no_match
    else if holds (text_discrete s (codes "identity_ambiguous"))
    then ok identity_ambiguous
    else if holds (text_discrete s (codes "missing_attribute"))
    then ok missing_attribute
    else if holds (text_discrete s (codes "confirm_proposal"))
    then ok confirm_proposal
    else if holds (text_discrete s (codes "correct_conflict"))
    then ok correct_conflict
    else if holds (text_discrete s (codes "relationship_target"))
    then ok relationship_target
    else if holds (text_discrete s (codes "explicit_discard"))
    then ok explicit_discard
    else err (unknown_kind s)

-- `ClarificationResponseMode(value)`
unfoldable pub mode_of : Text → Result Invalid ResponseMode
unfolding text_discrete
mode_of s =
    if holds (text_discrete s (codes "free_text"))
    then ok free_text
    else if holds (text_discrete s (codes "single_choice"))
    then ok single_choice
    else if holds (text_discrete s (codes "multiple_choice"))
    then ok multiple_choice
    else if holds (text_discrete s (codes "confirmation"))
    then ok confirmation
    else if holds (text_discrete s (codes "choice_or_text"))
    then ok choice_or_text
    else if holds (text_discrete s (codes "text_or_audio"))
    then ok text_or_audio
    else err (unknown_mode s)

-- The kind of a draft, `missing_attribute` by default.
unfoldable pub draft_kind : QuestionDraft → Result Invalid Kind
unfolding kind_of
draft_kind q = elim q.kind [ none ↦ ok missing_attribute | some s ↦ kind_of s ]

-- The mode that fits a draft which names none.
unfoldable pub default_mode : QuestionDraft → ResponseMode
unfolding any
default_mode q =
    if any q.options && not q.allow_custom_answer
    then single_choice
    else if any q.options
    then choice_or_text
    else text_or_audio

unfoldable pub draft_mode : QuestionDraft → Result Invalid ResponseMode
unfolding mode_of default_mode
draft_mode q = elim q.response_mode [ none ↦ ok (default_mode q) | some s ↦ mode_of s ]

-- `str(x or new_uuid())`: the id, and the number of the next uuid.
unfoldable pub id_or_new : (ℕ → Text) → ℕ → Option Text → Text × ℕ
id_or_new uuid n none = (uuid n, n + 1)
id_or_new uuid n (some id) = (id, n)

-- The comprehension over the options: those without a label are dropped.
unfoldable pub draft_options : (ℕ → Text) → ℕ → List OptionDraft → List Choice × ℕ
unfolding id_or_new nonempty
draft_options uuid n [] = ([], n)
draft_options uuid n (o ∷ options) =
    let named = id_or_new uuid n o.option_id in
    let kept = draft_options uuid named.1 options in
    let skipped = draft_options uuid n options in
    if nonempty (strip o.label)
    then (
      record {
        option_id = named.0;
        target_ref = o.target_ref;
        label = strip o.label;
        summary = o.summary;
        recommended = o.recommended;
      }
          ∷ kept.0,
      kept.1,
    )
    else skipped

-- One element of the comprehension over the questions.
unfoldable pub draft_question : (ℕ → Text) → ℕ → QuestionDraft → Result Invalid (Question × ℕ)
unfolding draft_kind draft_mode draft_options id_or_new build_question
draft_question uuid n q =
    let named = id_or_new uuid n q.question_id in
    let options = draft_options uuid named.1 q.options in
    elim (draft_kind q) [
      | err e ↦ err e
      | ok kind ↦ elim (draft_mode q) [
        | err e ↦ err e
        | ok mode ↦
            elim (build_question (record {
              question_id = named.0;
              question = strip q.question;
              kind = kind;
              response_mode = mode;
              options = options.0;
              target_refs = q.target_refs;
              evidence_refs = q.evidence_refs;
              allow_custom_answer = q.allow_custom_answer;
              required = q.required;
            })) [ err e ↦ err e | ok question ↦ ok (question, options.1) ]
      ]
    ]

-- The comprehension over the questions: blank ones are dropped.
unfoldable pub draft_questions :
    (ℕ → Text) → ℕ → List QuestionDraft → Result Invalid (List Question)
unfolding draft_question nonempty
draft_questions uuid n [] = ok []
draft_questions uuid n (q ∷ questions) =
    if nonempty (strip q.question)
    then elim (draft_question uuid n q) [
      | err e ↦ err e
      | ok (question, n') ↦ elim (draft_questions uuid n' questions) [
        | err e ↦ err e
        | ok rest ↦ ok (question ∷ rest)
      ]
    ]
    else draft_questions uuid n questions

-- A label, with the summary if there is one.
unfoldable pub option_label : Choice → Text
option_label o = elim o.summary [
  | none ↦ o.label
  | some s ↦ if nonempty s then o.label ++ codes " (" ++ s ++ codes ")" else o.label
]

unfoldable pub question_lines : ℕ → Question → List Text
unfolding option_label any join
question_lines index q =
    (decimal index ++ codes ". " ++ q.question)
    ∷ ((if any q.options
          then (codes "   Options: " ++ join (codes ", ") (map option_label q.options)) ∷ []
          else [])
        ++ (if q.allow_custom_answer
            then codes "   Other: custom text or audio is allowed." ∷ []
            else []))

unfoldable pub all_lines : ℕ → List Question → List Text
unfolding question_lines
all_lines index [] = []
all_lines index (q ∷ questions) = question_lines index q ++ all_lines (index + 1) questions

-- `render_clarification_questions`
unfoldable pub render_clarification_questions : Packet → Text
unfolding all_lines join
render_clarification_questions p =
    join (10 ∷ []) (codes "Clarification needed:" ∷ all_lines 1 p.questions)

-- The history of a packet that has none is what the user reads.
unfoldable pub with_history : Packet → Packet
unfolding render_clarification_questions
with_history p = elim p.history_delta [
  | m ∷ ms ↦ p
  | [] ↦ record p {
    history_delta = record { by_assistant = true; content = render_clarification_questions p } ∷ [];
  }
]

-- `build_clarification_packet`; the packet draws the uuid 0, its questions and options the next ones.
unfoldable pub build_clarification_packet :
    (Text → Bool) → (ℕ → Text) → PacketDraft → Result Invalid Packet
unfolding draft_questions build_packet validate_model_refs with_history
build_clarification_packet is_uuid uuid d = elim (draft_questions uuid 1 d.questions) [
  | err e ↦ err e
  | ok questions ↦
      elim (build_packet (record {
        packet_id = uuid 0;
        frame_id = d.frame_id;
        tool_call_id = d.tool_call_id;
        tool_name = d.tool_name;
        origin_state_id = d.origin_state_id;
        reason = d.reason;
        questions = questions;
        target_refs = d.target_refs;
        history_delta = d.history_delta;
      })) [
        | err e ↦ err e
        | ok p ↦ elim (validate_model_refs is_uuid p d.allowed_refs) [
          | err e ↦ err e
          | ok p' ↦ ok (with_history p')
        ]
      ]
]
