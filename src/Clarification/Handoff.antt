-- ===== src/Clarification/Handoff.antt =====
-- clarification/contracts.py: the doubts that an agent hands over, and the report that resolves them.
use my_digital_brain.Base.{
  Bool-cases, List, Option, Result, Text, [], arith, elem, err, false, if◌then◌else◌, inl, inr, ite,
  map, ok, refl, suc, text_discrete, true, ℕ, ◌||◌, ◌∷◌, ◌≡◌, not,
}
use my_digital_brain.Clarification.Contracts.{all_distinct, filter, any}

-- `ClarificationDoubt`
pub record Doubt : Type 0 where
  pub doubt_id : Text
  pub doubt : Text
  pub refs : List Text
  pub missing_information : Option Text
  pub why_blocking : Option Text
  pub evidence_refs : List Text

-- `ClarificationHandoffRequest`
pub record HandoffRequest : Type 0 where
  pub doubts : List Doubt
  pub invoker_state_id : Text
  pub invoker_tool_call_id : Option Text
  pub parent_frame_id : Option Text

-- `ClarificationResolutionStatus`
pub data ResolutionStatus : Type 0 where
  resolved partially_resolved unresolved user_declined not_needed : ResolutionStatus

-- `ClarificationResolutionEntry`, without its clarified values
pub record ResolutionEntry : Type 0 where
  pub doubt_id : Text
  pub status : ResolutionStatus
  pub questions : List Text
  pub user_answers : List Text
  pub selected_refs : List Text
  pub evidence_refs : List Text
  pub remaining_uncertainty : Option Text

-- `ClarificationResolutionReport`
pub record ResolutionReport : Type 0 where
  pub entries : List ResolutionEntry
  pub summary : Text

-- The `ValueError`s of `validate_against`.
pub data ReportError : Type 0 where
  repeated_entries : ReportError
  mismatch : List Text → List Text → ReportError

abbrev pub doubt_ids : HandoffRequest → List Text
doubt_ids handoff = map (λ (d : Doubt). d.doubt_id) handoff.doubts

abbrev pub entry_ids : ResolutionReport → List Text
entry_ids report = map (λ (e : ResolutionEntry). e.doubt_id) report.entries

-- `set(xs) - set(ys)`, as a list
unfoldable pub difference : List Text → List Text → List Text
difference xs ys = filter (λ x. not (elem text_discrete x ys)) xs

-- `validate_against`; the ids of the error are not sorted here.
unfoldable pub validate_against : ResolutionReport → HandoffRequest → Result ReportError Unit
validate_against report handoff =
    let missing = difference (doubt_ids handoff) (entry_ids report) in
    let unexpected = difference (entry_ids report) (doubt_ids handoff) in
    if not (all_distinct (entry_ids report))
    then err repeated_entries
    else if any missing || any unexpected
    then err (mismatch missing unexpected)
    else ok tt

-- How often an id occurs.
abbrev occurrences : Text → List Text → ℕ
occurrences id [] = 0
occurrences id (x ∷ ids) = ite (text_discrete x id) (suc (occurrences id ids)) (occurrences id ids)

absent-occurrences :
    (id : Text) (ids : List Text) → elem text_discrete id ids ≡ false → occurrences id ids ≡ 0
absent-occurrences id [] h = refl
absent-occurrences id (x ∷ ids) h = ground (arith, absent-occurrences id ids)

distinct-occurrences :
    (id : Text) (ids : List Text)
    → all_distinct ids ≡ true
    → elem text_discrete id ids ≡ true
    → occurrences id ids ≡ 1
unfolding all_distinct
distinct-occurrences id [] h among = absurd (ground arith)
distinct-occurrences id (x ∷ ids) h among = elim (text_discrete x id) [
  | yes same ↦ ground (arith, same, absent-occurrences x ids)
  | no other ↦ ground (arith, other, distinct-occurrences id ids)
]

difference-elem :
    (xs ys : List Text) (id : Text)
    → any (difference xs ys) ≡ false
    → elem text_discrete id xs ≡ true
    → elem text_discrete id ys ≡ true
unfolding difference filter any
difference-elem [] ys id h among = absurd (ground arith)
difference-elem (x ∷ xs) ys id h among = elim (Bool-cases (elem text_discrete x ys)) [
  | inr outside ↦ absurd (ground arith)
  | inl inside ↦ elim (text_discrete x id) [
    | yes same ↦ ground (arith, same, inside)
    | no other ↦ difference-elem xs ys id (ground arith) (ground (arith, other))
  ]
]

-- A report that is valid against a handoff has exactly one entry for each of its doubts, and entries
-- for nothing else.
pub validate_against-once :
    (report : ResolutionReport) (handoff : HandoffRequest) (id : Text)
    → validate_against report handoff ≡ ok tt
    → (elem text_discrete id (doubt_ids handoff) ≡ true → occurrences id (entry_ids report) ≡ 1)
      × (elem text_discrete id (entry_ids report) ≡ true
          → elem text_discrete id (doubt_ids handoff) ≡ true)
unfolding validate_against
validate_against-once report handoff id h =
    let once : all_distinct (entry_ids report) ≡ true = ground arith in
    let none_missing : any (difference (doubt_ids handoff) (entry_ids report)) ≡ false =
      ground arith in
    let none_unexpected : any (difference (entry_ids report) (doubt_ids handoff)) ≡ false =
      ground arith in
    (
      λ asked.
          distinct-occurrences id (entry_ids report) once
            (difference-elem (doubt_ids handoff) (entry_ids report) id none_missing asked),
      difference-elem (entry_ids report) (doubt_ids handoff) id none_unexpected,
    )
