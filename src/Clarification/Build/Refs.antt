-- ===== src/Clarification/Build/Refs.antt =====
-- A packet that is built names only references that the context supplies, and no database ids.
use mathlib.Core.Path.{subst}
use my_digital_brain.Base.{
  sym, ap, ◌∙◌, ℕ, ◌≡◌, refl, Bool, true, false, not, inl, inr, some, List, [], ◌∷◌, arith, elem,
  every, Text, text_discrete, ok, err, Bool-cases, Result-cases, List-cases,
}
use my_digital_brain.Clarification.Contracts.{
  Packet, any, filter, packet_refs, looks_like_persisted_id, check_allowed, validate_model_refs,
  build_packet,
}
use my_digital_brain.Clarification.Build.{
  PacketDraft, draft_questions, with_history, build_clarification_packet,
}

-- An empty filter: the test fails everywhere.
filter-none :
    (f : Text → Bool) (xs : List Text)
    → any (filter f xs) ≡ false
    → every (λ x. not (f x)) xs ≡ true
unfolding filter any
filter-none f [] h = refl
filter-none f (x ∷ xs) h = ground (arith, filter-none f xs)

filter-all :
    (f : Text → Bool) (xs : List Text)
    → any (filter (λ x. not (f x)) xs) ≡ false
    → every f xs ≡ true
unfolding filter any
filter-all f [] h = refl
filter-all f (x ∷ xs) h = ground (arith, filter-all f xs)

-- The references are safe to show: none looks like a database id, and each one is supplied.
pub record IsSafe (is_uuid : Text → Bool) (allowed : List Text) (refs : List Text) : Type 0 where
  no_ids : every (λ ref. not (looks_like_persisted_id is_uuid ref)) refs ≡ true
  supplied : every (λ ref. elem text_discrete ref allowed) refs ≡ true

validate_model_refs-IsSafe :
    (is_uuid : Text → Bool) (p p' : Packet) (allowed : List Text)
    → validate_model_refs is_uuid p (some allowed) ≡ ok p'
    → (p ≡ p') × IsSafe is_uuid allowed (packet_refs p)
unfolding validate_model_refs check_allowed
validate_model_refs-IsSafe is_uuid p p' allowed h =
    elim (Bool-cases (any (filter (looks_like_persisted_id is_uuid) (packet_refs p)))) [
      | inl found ↦ absurd (ground arith)
      | inr no_ids ↦
          elim (Bool-cases
            (any (filter (λ ref. not (elem text_discrete ref allowed)) (packet_refs p)))) [
              | inl unknown ↦ absurd (ground arith)
              | inr supplied ↦ (
                ground arith,
                record {
                  no_ids = filter-none (looks_like_persisted_id is_uuid) (packet_refs p) no_ids;
                  supplied =
                      filter-all (λ ref. elem text_discrete ref allowed) (packet_refs p) supplied;
                },
              )
            ]
    ]

-- Only the history changes.
with_history-same :
    (p : Packet)
    → (packet_refs (with_history p) ≡ packet_refs p)
      × (build_packet (with_history p)
          ≡ (elim (build_packet p) [ ok q ↦ ok (with_history p) | err e ↦ err e ]))
unfolding with_history packet_refs build_packet
with_history-same p = elim (List-cases p.history_delta) [
  | inl e ↦ (ground arith, ground arith)
  | inr (m, ms, e) ↦ (ground arith, ground arith)
]

built-same : (p p' : Packet) → build_packet p ≡ ok p' → p ≡ p'
unfolding build_packet
built-same p p' h = ground arith

-- What is shown of a packet.
abbrev pub IsShown : (Text → Bool) → List Text → Packet → Type 0
IsShown is_uuid allowed p = (build_packet p ≡ ok p) × IsSafe is_uuid allowed (packet_refs p)

IsShown-with_history :
    (is_uuid : Text → Bool) (allowed : List Text) (p : Packet)
    → build_packet p ≡ ok p
    → IsSafe is_uuid allowed (packet_refs p)
    → IsShown is_uuid allowed (with_history p)
IsShown-with_history is_uuid allowed p built safe =
    let (refs, same) = with_history-same p in
    (ground (arith, same, built), subst (IsSafe is_uuid allowed) (sym refs) safe)

-- A packet that is built in a context passes the validators of a packet, every reference in it is
-- one of the context's, and none looks like a database id.
pub build_clarification_packet-IsSafe :
    (is_uuid : Text → Bool) (uuid : ℕ → Text) (d : PacketDraft) (allowed : List Text) (p : Packet)
    → d.allowed_refs ≡ some allowed
    → build_clarification_packet is_uuid uuid d ≡ ok p
    → (build_packet p ≡ ok p) × IsSafe is_uuid allowed (packet_refs p)
unfolding build_clarification_packet
build_clarification_packet-IsSafe is_uuid uuid d allowed p given h =
    elim (Result-cases (draft_questions uuid 1 d.questions)) [
      | inr (error, q) ↦ absurd (ground arith)
      | inl (questions, q) ↦
          let made : Packet = record {
            packet_id = uuid 0;
            frame_id = d.frame_id;
            tool_call_id = d.tool_call_id;
            tool_name = d.tool_name;
            origin_state_id = d.origin_state_id;
            reason = d.reason;
            questions = questions;
            target_refs = d.target_refs;
            history_delta = d.history_delta;
          } in
          elim (Result-cases (build_packet made)) [
            | inr (error, b) ↦ absurd (ground arith)
            | inl (p1, b) ↦ elim (Result-cases (validate_model_refs is_uuid p1 d.allowed_refs)) [
              | inr (error, v) ↦ absurd (ground arith)
              | inl (p2, v) ↦
                  let (same, safe) =
                    validate_model_refs-IsSafe is_uuid p1 p2 allowed
                      (ap (validate_model_refs is_uuid p1) (sym given) ∙ v) in
                  let whole : build_packet p1 ≡ ok p1 =
                    ap build_packet (sym (built-same made p1 b)) ∙ b in
                  subst (IsShown is_uuid allowed) (ap with_history same ∙ ground arith)
                    (IsShown-with_history is_uuid allowed p1 whole safe)
            ]
          ]
    ]
