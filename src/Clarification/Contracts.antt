-- ===== src/Clarification/Contracts.antt =====
-- clarification/contracts.py: questions, packets and answers, with their validators.
use my_digital_brain.Base.{
  Bool, true, false, not, ◌&&◌, ◌||◌, ◌==◌, leb, Option, none, some, List, [], ◌∷◌, ◌++◌, map,
  if◌then◌else◌, length, every, some_of, elem, Text, codes, text_discrete, strip, starts_with,
  Result, ok, err,
}

-- `ClarificationKind`
pub data Kind : Type 0 where
  identity_no_match identity_ambiguous missing_attribute confirm_proposal correct_conflict
        relationship_target explicit_discard :
      Kind

-- `ClarificationResponseMode`
pub data ResponseMode : Type 0 where
  free_text single_choice multiple_choice confirmation choice_or_text text_or_audio : ResponseMode

-- `ClarificationOption`
pub record Choice : Type 0 where
  pub option_id : Text
  pub target_ref : Option Text
  pub label : Text
  pub summary : Option Text
  pub recommended : Bool

-- `ClarificationQuestion`
pub record Question : Type 0 where
  pub question_id : Text
  pub question : Text
  pub kind : Kind
  pub response_mode : ResponseMode
  pub options : List Choice
  pub target_refs : List Text
  pub evidence_refs : List Text
  pub allow_custom_answer : Bool
  pub required : Bool

-- `ClarificationHistoryMessage`; the flag is set for the role `assistant`.
pub record HistoryMessage : Type 0 where
  pub by_assistant : Bool
  pub content : Text

-- `ClarificationPacket`
pub record Packet : Type 0 where
  pub packet_id : Text
  pub frame_id : Text
  pub tool_call_id : Option Text
  pub tool_name : Option Text
  pub origin_state_id : Text
  pub reason : Text
  pub questions : List Question
  pub target_refs : List Text
  pub history_delta : List HistoryMessage

-- `ClarificationAnswer`
pub record Answer : Type 0 where
  pub question_id : Text
  pub selected_option_ids : List Text
  pub text : Option Text
  pub audio_media_ref : Option Text
  pub normalized_text : Option Text

-- `ClarificationAnswerPacket`
pub record AnswerPacket : Type 0 where
  pub packet_id : Text
  pub frame_id : Text
  pub tool_call_id : Text
  pub answers : List Answer

-- The errors of the models and of `validate_model_refs`.
pub data Invalid : Type 0 where
  malformed_option : Invalid
  malformed_question : Invalid
  unknown_kind : Text → Invalid
  unknown_mode : Text → Invalid
  options_given : ResponseMode → Invalid
  options_missing : ResponseMode → Invalid
  not_two_options : Invalid
  summaries_missing : List Text → Invalid
  custom_answers_disabled : Invalid
  question_count : Invalid
  repeated_questions : Invalid
  repeated_options : Invalid
  persisted_ids : List Text → Invalid
  unknown_refs : List Text → Invalid
  answer_count : Invalid
  repeated_answers : Invalid

-- `bool(s)`
unfoldable pub nonempty : Text → Bool
nonempty [] = false
nonempty (c ∷ s) = true

-- `bool((s or "").strip())`
unfoldable pub has_content : Option Text → Bool
unfolding nonempty
has_content none = false
has_content (some s) = nonempty (strip s)

-- `bool(xs)`
unfoldable pub any {ℓ} : {A : Type ℓ} → List A → Bool
any [] = false
any (x ∷ xs) = true

-- `len(xs) == len(set(xs))`
unfoldable pub all_distinct : List Text → Bool
all_distinct [] = true
all_distinct (x ∷ xs) = not (elem text_discrete x xs) && all_distinct xs

-- `option_summaries_required`
unfoldable pub option_summaries_required : Kind → Bool
option_summaries_required identity_ambiguous = true
option_summaries_required correct_conflict = true
option_summaries_required relationship_target = true
option_summaries_required _ = false

-- The labels of the options without a summary.
unfoldable pub missing_summaries : List Choice → List Text
unfolding has_content
missing_summaries [] = []
missing_summaries (o ∷ options) =
    if has_content o.summary then missing_summaries options else o.label ∷ missing_summaries options

-- The modes that take no options, and those that need some.
unfoldable pub is_open : ResponseMode → Bool
is_open free_text = true
is_open text_or_audio = true
is_open _ = false

unfoldable pub is_confirmation : ResponseMode → Bool
is_confirmation confirmation = true
is_confirmation _ = false

-- The modes that cannot disable custom answers.
unfoldable pub is_free_form : ResponseMode → Bool
is_free_form free_text = true
is_free_form text_or_audio = true
is_free_form choice_or_text = true
is_free_form _ = false

-- `len(summary) <= 160`, and a label
unfoldable pub is_option : Choice → Bool
unfolding nonempty
is_option o = nonempty o.label && elim o.summary [ none ↦ true | some s ↦ leb (length s) 160 ]

-- The last two checks of `_validate_semantics`.
unfoldable pub check_summaries : Question → Result Invalid Question
unfolding option_summaries_required is_free_form
check_summaries q =
    if option_summaries_required q.kind && any (missing_summaries q.options)
    then err (summaries_missing (missing_summaries q.options))
    else if not q.allow_custom_answer && is_free_form q.response_mode
    then err custom_answers_disabled
    else ok q

-- `_validate_semantics`
unfoldable pub validate_semantics : Question → Result Invalid Question
unfolding check_summaries is_open any is_confirmation
validate_semantics q =
    if is_open q.response_mode && any q.options
    then err (options_given q.response_mode)
    else if not (is_open q.response_mode) && not (any q.options)
    then err (options_missing q.response_mode)
    else if is_confirmation q.response_mode && not (length q.options == 2)
    then err not_two_options
    else check_summaries q

-- `ClarificationQuestion(...)`
unfoldable pub build_question : Question → Result Invalid Question
unfolding validate_semantics is_option nonempty
build_question q =
    if not (every is_option q.options)
    then err malformed_option
    else if nonempty q.question && leb (length q.options) 5
    then validate_semantics q
    else err malformed_question

unfoldable pub option_ids : List Question → List Text
option_ids [] = []
option_ids (q ∷ questions) = map (λ (o : Choice). o.option_id) q.options ++ option_ids questions

abbrev pub question_ids : List Question → List Text
question_ids = map (λ (q : Question). q.question_id)

-- `ClarificationPacket(...)`, for questions that were built
unfoldable pub build_packet : Packet → Result Invalid Packet
unfolding any all_distinct option_ids
build_packet p =
    if any p.questions && leb (length p.questions) 5
    then (if all_distinct (question_ids p.questions)
        then (if all_distinct (option_ids p.questions) then ok p else err repeated_options)
        else err repeated_questions)
    else err question_count

-- `ClarificationAnswerPacket(...)`
unfoldable pub build_answer_packet : AnswerPacket → Result Invalid AnswerPacket
unfolding any all_distinct
build_answer_packet a =
    if any a.answers && leb (length a.answers) 5
    then (if all_distinct (map (λ (x : Answer). x.question_id) a.answers)
        then ok a
        else err repeated_answers)
    else err answer_count

-- `if ref`
unfoldable pub filled : List (Option Text) → List Text
filled [] = []
filled (none ∷ refs) = filled refs
filled (some [] ∷ refs) = filled refs
filled (some (c ∷ s) ∷ refs) = (c ∷ s) ∷ filled refs

-- The references of a question and its options.
unfoldable pub question_refs : List Question → List Text
unfolding filled
question_refs [] = []
question_refs (q ∷ questions) =
    filled (
      map (λ s. some s) q.target_refs
      ++ map (λ s. some s) q.evidence_refs
      ++ map (λ (o : Choice). o.target_ref) q.options)
    ++ question_refs questions

unfoldable pub packet_refs : Packet → List Text
unfolding question_refs
packet_refs p = p.target_refs ++ question_refs p.questions

-- `[x for x in xs if f(x)]`
unfoldable pub filter : (Text → Bool) → List Text → List Text
filter f [] = []
filter f (x ∷ xs) = if f x then x ∷ filter f xs else filter f xs

-- `_looks_like_persisted_id`; `is_uuid` is the parse of `UUID`.
unfoldable pub looks_like_persisted_id : (Text → Bool) → Text → Bool
unfolding starts_with
looks_like_persisted_id is_uuid value =
    is_uuid value || some_of (λ c. c == b':') value || starts_with value (codes "neo4j-")

-- The check of `validate_model_refs` against the references of the context.
unfoldable pub check_allowed : Packet → Option (List Text) → Result Invalid Packet
unfolding filter packet_refs any
check_allowed p none = ok p
check_allowed p (some allowed) =
    let unknown = filter (λ ref. not (elem text_discrete ref allowed)) (packet_refs p) in
    if any unknown then err (unknown_refs unknown) else ok p

-- `validate_model_refs`
unfoldable pub validate_model_refs :
    (Text → Bool) → Packet → Option (List Text) → Result Invalid Packet
unfolding check_allowed looks_like_persisted_id
validate_model_refs is_uuid p allowed =
    let persisted = filter (looks_like_persisted_id is_uuid) (packet_refs p) in
    if any persisted then err (persisted_ids persisted) else check_allowed p allowed
