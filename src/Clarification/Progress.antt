-- ===== src/Clarification/Progress.antt =====
-- clarification/interaction.py: the answers that were given so far to a packet, and what is made of
-- them. Answers are stored as JSON and read back; here they are stored as they are.
pub mod Complete
use my_digital_brain.Base.{
  Bool, ◌==◌, Option, none, some, List, [], ◌∷◌, ◌++◌, map, if◌then◌else◌, holds, length, elem,
  Text, codes, text_discrete, strip, Table, get, put, has, empty, Result, ok, err,
}
use my_digital_brain.Clarification.Contracts.{
  Choice, Question, Packet, Answer, AnswerPacket, Invalid, question_ids, build_answer_packet,
  filter,
}
use my_digital_brain.Clarification.Answers.{question_of}

-- The progress that is stored with a frame.
pub record Progress : Type 0 where
  pub packet_id : Text
  pub answered_question_ids : List Text
  pub current_question_id : Option Text
  pub is_complete : Bool
  pub answers_by_question_id : Table Answer

-- `current_progress` if it belongs to the packet
unfoldable pub earlier_answers : Packet → Option Progress → Table Answer
earlier_answers p none = empty
earlier_answers p (some progress) =
    if holds (text_discrete progress.packet_id p.packet_id)
    then progress.answers_by_question_id
    else empty

-- The loop that stores the answers.
unfoldable pub store_answers : Table Answer → List Answer → Table Answer
store_answers given [] = given
store_answers given (a ∷ answers) = store_answers (put given a.question_id a) answers

unfoldable pub first_open : Table Answer → List Text → Option Text
first_open given [] = none
first_open given (id ∷ ids) = if has given id then first_open given ids else some id

-- What the progress says of stored answers.
unfoldable pub progress_of : Packet → Table Answer → Progress
unfolding filter first_open
progress_of p given =
    let answered = filter (has given) (question_ids p.questions) in
    record {
      packet_id = p.packet_id;
      answered_question_ids = answered;
      current_question_id = first_open given (question_ids p.questions);
      is_complete = length answered == length (question_ids p.questions);
      answers_by_question_id = given;
    }

-- `merge_clarification_progress`
unfoldable pub merge_clarification_progress : Packet → Option Progress → AnswerPacket → Progress
unfolding progress_of store_answers earlier_answers
merge_clarification_progress p current a =
    progress_of p (store_answers (earlier_answers p current) a.answers)

-- The errors of `answer_packet_from_progress`.
pub data ReadError : Type 0 where
  missing_answer : Text → ReadError
  rejected : Invalid → ReadError

-- Its loop.
unfoldable pub collect_answers : Table Answer → List Question → Result ReadError (List Answer)
collect_answers given [] = ok []
collect_answers given (q ∷ questions) = elim (get given q.question_id) [
  | none ↦ err (missing_answer q.question_id)
  | some a ↦ elim (collect_answers given questions) [
    | err error ↦ err error
    | ok answers ↦ ok (a ∷ answers)
  ]
]

-- `packet.tool_call_id or ""`
unfoldable pub text_or_empty : Option Text → Text
text_or_empty none = []
text_or_empty (some s) = s

-- `answer_packet_from_progress`
unfoldable pub answer_packet_from_progress : Packet → Progress → Result ReadError AnswerPacket
unfolding collect_answers text_or_empty
answer_packet_from_progress p progress =
    elim (collect_answers progress.answers_by_question_id p.questions) [
      | err error ↦ err error
      | ok answers ↦
          elim (build_answer_packet (record {
            packet_id = p.packet_id;
            frame_id = p.frame_id;
            tool_call_id = text_or_empty p.tool_call_id;
            answers = answers;
          })) [ err error ↦ err (rejected error) | ok packet ↦ ok packet ]
    ]

-- What is kept of an option that is selected.
pub record Selected : Type 0 where
  pub option_id : Text
  pub target_ref : Option Text
  pub label : Text
  pub recommended : Bool

-- The options that an answer selects, in the order of the question.
unfoldable pub selected_options : List Choice → List Text → List Selected
selected_options [] ids = []
selected_options (o ∷ options) ids =
    let rest = selected_options options ids in
    if elem text_discrete o.option_id ids
    then record {
      option_id = o.option_id;
      target_ref = o.target_ref;
      label = o.label;
      recommended = o.recommended;
    }
      ∷ rest
    else rest

-- `", ".join(parts)`
unfoldable pub join : Text → List Text → Text
join separator [] = []
join separator (s ∷ []) = s
join separator (s ∷ t ∷ rest) = s ++ separator ++ join separator (t ∷ rest)

-- `(s or "").strip()`
unfoldable pub stripped : Option Text → Text
stripped none = []
stripped (some s) = strip s

-- `s or t`
unfoldable pub or_else : Text → Text → Text
or_else [] t = t
or_else (c ∷ s) t = c ∷ s

-- `s or None`
unfoldable pub some_text : Text → Option Text
some_text [] = none
some_text (c ∷ s) = some (c ∷ s)

-- What the agent is told of an answer, beside two constants.
pub record Resolved : Type 0 where
  pub question_id : Text
  pub question : Text
  pub answer : Text
  pub selected_options : List Selected
  pub text : Option Text
  pub normalized_text : Option Text
  pub audio_media_ref : Option Text

unfoldable pub resolve_answer : Question → Answer → Resolved
unfolding selected_options join stripped or_else some_text
resolve_answer q a =
    let selected = selected_options q.options a.selected_option_ids in
    record {
      question_id = q.question_id;
      question = q.question;
      answer = or_else (stripped a.normalized_text) (
          or_else (stripped a.text) (join (codes ", ") (map (λ (o : Selected). o.label) selected)));
      selected_options = selected;
      text = some_text (stripped a.text);
      normalized_text = some_text (stripped a.normalized_text);
      audio_media_ref = a.audio_media_ref;
    }

-- The loop of `resolved_clarifications_from_answers`.
unfoldable pub resolve_answers : List Question → List Answer → List Resolved
unfolding question_of resolve_answer
resolve_answers questions [] = []
resolve_answers questions (a ∷ answers) = elim (question_of a.question_id questions) [
  | none ↦ resolve_answers questions answers
  | some q ↦ resolve_answer q a ∷ resolve_answers questions answers
]

-- `resolved_clarifications_from_answers`
unfoldable pub resolved_clarifications_from_answers : Packet → AnswerPacket → List Resolved
unfolding resolve_answers
resolved_clarifications_from_answers p a = resolve_answers p.questions a.answers
