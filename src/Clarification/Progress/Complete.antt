-- ===== src/Clarification/Progress/Complete.antt =====
-- chat/runtime.py, `answer_clarification`: answers come in over several turns, each packet of answers is
-- validated and merged, and once every question is answered the whole is validated again.
use mathlib.Core.Path.{subst, ap}
use my_digital_brain.Base.{
  ◌≡◌, refl, inl, inr, Option, none, some, List, [], ◌∷◌, arith, Text, text_discrete, Table, get,
  put, empty, get-put, Option-cases, Bool-cases, holds, Bool, ok, length, ◌≤◌, map, has, true, suc,
}
use my_digital_brain.Clarification.Contracts.{
  Packet, Answer, AnswerPacket, filter, Question, question_ids, any, build_answer_packet,
  build_packet, all_distinct,
}
use my_digital_brain.Clarification.Answers.{
  check_one, check_answers, validate_clarification_answers, other_tool_call,
}
use my_digital_brain.Clarification.Progress.{
  Progress, earlier_answers, store_answers, progress_of, merge_clarification_progress,
  collect_answers, text_or_empty, answer_packet_from_progress,
}

-- The part of `answer_clarification` that changes the progress: a packet that is refused leaves it.
unfoldable pub take_answers : Packet → Option Progress → AnswerPacket → Option Progress
unfolding validate_clarification_answers merge_clarification_progress
take_answers p current a = elim (validate_clarification_answers p a) [
  | some error ↦ current
  | none ↦ some (merge_clarification_progress p current a)
]

unfoldable pub after_turns : Packet → Option Progress → List AnswerPacket → Option Progress
unfolding take_answers
after_turns p current [] = current
after_turns p current (a ∷ turns) = after_turns p (take_answers p current a) turns

-- Every stored answer answers its question, and was accepted.
pub record Accepted (p : Packet) (given : Table Answer) : Type 0 where
  pub at :
      (id : Text) (a : Answer)
      → get given id ≡ some a
      → (a.question_id ≡ id) × (check_one p.questions a ≡ none)

Accepted-put :
    (p : Packet) (given : Table Answer) (a : Answer)
    → Accepted p given
    → check_one p.questions a ≡ none
    → Accepted p (put given a.question_id a)
Accepted-put p given a h fits = record {
  at = λ id b e. ground (arith, get-put given a.question_id id a, h.at id b);
}

Accepted-store_answers :
    (p : Packet) (given : Table Answer) (answers : List Answer)
    → Accepted p given
    → check_answers p.questions answers ≡ none
    → Accepted p (store_answers given answers)
unfolding store_answers check_answers
Accepted-store_answers p given [] h fits = h
Accepted-store_answers p given (a ∷ answers) h fits =
    elim (Option-cases (check_one p.questions a)) [
      | inl e ↦
          Accepted-store_answers p (put given a.question_id a) answers (Accepted-put p given a h e)
            (ground arith)
      | inr (error, e) ↦ absurd (ground arith)
    ]

-- What holds of a stored progress.
pub record IsProgress (p : Packet) (progress : Progress) : Type 0 where
  pub summary : progress ≡ progress_of p progress.answers_by_question_id
  pub accepted : Accepted p progress.answers_by_question_id

abbrev pub IsStored : Packet → Option Progress → Type 0
IsStored p none = Unit
IsStored p (some progress) = IsProgress p progress

Accepted-empty : (p : Packet) → Accepted p empty
unfolding get
Accepted-empty p = record { at = λ id a e. absurd (ground arith) }

Accepted-earlier :
    (p : Packet) (current : Option Progress)
    → IsStored p current
    → Accepted p (earlier_answers p current)
unfolding earlier_answers
Accepted-earlier p none h = Accepted-empty p
Accepted-earlier p (some progress) h =
    elim (Bool-cases (holds (text_discrete progress.packet_id p.packet_id))) [
      | inl same ↦ rw (same, earlier_answers) h.accepted
      | inr other ↦ rw (other, earlier_answers) (Accepted-empty p)
    ]

validated :
    (p : Packet) (a : AnswerPacket)
    → validate_clarification_answers p a ≡ none
    → check_answers p.questions a.answers ≡ none
unfolding validate_clarification_answers
validated p a h = ground arith

IsStored-take_answers :
    (p : Packet) (current : Option Progress) (a : AnswerPacket)
    → IsStored p current
    → IsStored p (take_answers p current a)
unfolding take_answers merge_clarification_progress progress_of
IsStored-take_answers p current a h = elim (Option-cases (validate_clarification_answers p a)) [
  | inr (error, e) ↦ rw (e, take_answers) h
  | inl e ↦
      rw (e, take_answers)
        (record {
          summary = refl;
          accepted =
              Accepted-store_answers p (earlier_answers p current) a.answers
                (Accepted-earlier p current h) (validated p a e);
        })
]

IsStored-after_turns :
    (p : Packet) (current : Option Progress) (turns : List AnswerPacket)
    → IsStored p current
    → IsStored p (after_turns p current turns)
unfolding after_turns
IsStored-after_turns p current [] h = h
IsStored-after_turns p current (a ∷ turns) h =
    IsStored-after_turns p (take_answers p current a) turns (IsStored-take_answers p current a h)

length-filter : (f : Text → Bool) (xs : List Text) → length (filter f xs) ≤ length xs
unfolding filter
length-filter f [] = omega arith
length-filter f (x ∷ xs) = ground (arith, length-filter f xs)

-- The answers to questions that all have one.
pub record AllAnswered (p : Packet) (given : Table Answer) (questions : List Question)
    : Type 0 where
  pub answers : List Answer
  pub collected : collect_answers given questions ≡ ok answers
  pub in_order : map (λ (a : Answer). a.question_id) answers ≡ question_ids questions
  pub fit : check_answers p.questions answers ≡ none

-- A question that has an answer is counted, and all are.
counted :
    (given : Table Answer) (q : Question) (questions : List Question)
    → length (filter (has given) (question_ids (q ∷ questions)))
      ≡ length (question_ids (q ∷ questions))
    → (has given q.question_id ≡ true)
      × (length (filter (has given) (question_ids questions)) ≡ length (question_ids questions))
unfolding filter
counted given q questions h =
    let short = length-filter (has given) (question_ids questions) in
    elim (Bool-cases (has given q.question_id)) [
      | inl e ↦ (e, ground arith)
      | inr e ↦ absurd (ground arith)
    ]

collect-AllAnswered :
    (p : Packet) (given : Table Answer) (questions : List Question)
    → Accepted p given
    → length (filter (has given) (question_ids questions)) ≡ length (question_ids questions)
    → AllAnswered p given questions
unfolding collect_answers check_answers
collect-AllAnswered p given [] h full = record {
  answers = [];
  collected = refl;
  in_order = refl;
  fit = refl;
}
collect-AllAnswered p given (q ∷ questions) h full =
    let (this, others) = counted given q questions full in
    let rest = collect-AllAnswered p given questions h others in
    elim (Option-cases (get given q.question_id)) [
      | inl e ↦ absurd (ground arith)
      | inr (a, e) ↦
          let (own, fits) = h.at q.question_id a e in
          record {
            answers = a ∷ rest.answers;
            collected = ground (arith, rest.collected);
            in_order = cc (own, rest.in_order);
            fit = ground (arith, rest.fit);
          }
    ]

length-map {ℓ} : {A B : Type ℓ} (f : A → B) (xs : List A) → length (map f xs) ≡ length xs
length-map f [] = refl
length-map f (x ∷ xs) = ap suc (length-map f xs)

any-map {ℓ} : {A B : Type ℓ} (f : A → B) (xs : List A) → any (map f xs) ≡ any xs
unfolding any
any-map f [] = refl
any-map f (x ∷ xs) = refl

-- Answers to the questions of a packet, in their order, make up an answer packet.
built :
    (p : Packet) (a : AnswerPacket)
    → build_packet p ≡ ok p
    → map (λ (x : Answer). x.question_id) a.answers ≡ question_ids p.questions
    → build_answer_packet a ≡ ok a
unfolding build_answer_packet build_packet
built p a h in_order =
    let many = length-map (λ (x : Answer). x.question_id) a.answers in
    let asked = length-map (λ (q : Question). q.question_id) p.questions in
    let some_answers = any-map (λ (x : Answer). x.question_id) a.answers in
    let some_questions = any-map (λ (q : Question). q.question_id) p.questions in
    ground (arith, ap length in_order, ap any in_order, ap all_distinct in_order)

-- The whole of the answers, as `answer_packet_from_progress` puts them together.
abbrev pub whole_answers : Packet → List Answer → AnswerPacket
whole_answers p answers = record {
  packet_id = p.packet_id;
  frame_id = p.frame_id;
  tool_call_id = text_or_empty p.tool_call_id;
  answers = answers;
}

no_mismatch :
    (p : Packet) (answers : List Answer)
    → check_answers p.questions answers ≡ none
    → validate_clarification_answers p (whole_answers p answers) ≡ none
unfolding validate_clarification_answers other_tool_call text_or_empty
no_mismatch p answers h = ground arith

full_count :
    (p : Packet) (progress : Progress)
    → progress ≡ progress_of p progress.answers_by_question_id
    → progress.is_complete ≡ true
    → length (filter (has progress.answers_by_question_id) (question_ids p.questions))
      ≡ length (question_ids p.questions)
unfolding progress_of
full_count p progress summary complete =
    ground (arith, ap (λ (x : Progress). x.is_complete) summary)

-- Answers that come in over any number of turns, refused ones between them: once the progress of a
-- packet is complete, its answers make up an answer packet with one answer to each question, in the
-- order of the questions, and the packet passes the validation of `answer_clarification`.
pub complete_progress-Accepted :
    (p : Packet) (turns : List AnswerPacket) (progress : Progress)
    → build_packet p ≡ ok p
    → after_turns p none turns ≡ some progress
    → progress.is_complete ≡ true
    → (whole : AnswerPacket) × (answer_packet_from_progress p progress ≡ ok whole)
      × (validate_clarification_answers p whole ≡ none)
      × (map (λ (x : Answer). x.question_id) whole.answers ≡ question_ids p.questions)
unfolding answer_packet_from_progress
complete_progress-Accepted p turns progress valid ends complete =
    let h : IsProgress p progress =
      subst (IsStored p) ends (IsStored-after_turns p none turns tt) in
    let r =
      collect-AllAnswered p progress.answers_by_question_id p.questions h.accepted
        (full_count p progress h.summary complete) in
    (
      whole_answers p r.answers,
      rw
          (
            r.collected,
            answer_packet_from_progress,
            built p (whole_answers p r.answers) valid r.in_order,
          )
          refl,
      no_mismatch p r.answers r.fit,
      r.in_order,
    )
