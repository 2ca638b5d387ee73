-- ===== src/Ingest/Candidates/Elements.antt =====
-- What the elements of a candidate graph are that the validator accepts.
use my_digital_brain.Base.{
  All, List, Text, [], arith, codes, elem, false, get, holds, text_discrete, true, ℕ, ◌&&◌, ◌++◌,
  ◌+◌, ◌∷◌, ◌≡◌, ◌≢◌, not,
}
use my_digital_brain.References.Entry.{owner_alias}
use my_digital_brain.Graph.Values.{is_true}
use my_digital_brain.Graph.Labels.{core_node_labels, core_relationship_types}
use my_digital_brain.Ingest.Issues.{Issue, when, indexed}
use my_digital_brain.Ingest.Issues.Clean.{IsClean, IsClean-append, IsClean-when, IsEndpoint}
use my_digital_brain.Ingest.Validate.{validate_label, validate_type, is_person}
use my_digital_brain.Ingest.Validate.Accepted.{label_known, type_known}
use my_digital_brain.Ingest.Candidates.{
  CandidateBase, CandidateEntity, CandidateRelationship, is_empty, CandidatePatch,
  CandidateProfileMemory, CandidateClaim, CandidatePerception, CandidateContext,
}
use my_digital_brain.Ingest.Candidates.Logs.{validate_candidate_ref, validate_refs}
use my_digital_brain.Ingest.Candidates.Validate.{
  enumerate, validate_evidence, validate_owner_entity, entity_issues, relationship_issues,
  patch_issues, profile_issues, claim_issues, perception_issues, context_issues, owner_paths,
}

-- The candidate is backed by a source or a piece of evidence.
abbrev pub IsBacked : CandidateBase → Type 0
IsBacked base = is_empty base.source_refs && is_empty base.evidence_refs ≡ false

pub evidence-IsBacked :
    (base : CandidateBase) (path : Text) → IsClean (validate_evidence base path) → IsBacked base
unfolding validate_evidence
evidence-IsBacked base path h = IsClean-when _ _ _ h

pub ref-IsEndpoint :
    (ref path : Text) (refs : List Text)
    → IsClean (validate_candidate_ref ref path refs)
    → IsEndpoint refs ref
unfolding validate_candidate_ref
ref-IsEndpoint ref path refs h = IsClean-when _ _ _ h

pub refs-IsEndpoint :
    (refs : List Text) (name : Text) (index : ℕ) (xs : List Text)
    → IsClean (validate_refs refs name index xs)
    → All (IsEndpoint refs) xs
unfolding validate_refs
refs-IsEndpoint refs name index [] h = tt
refs-IsEndpoint refs name index (x ∷ xs) h =
    let (first, rest) =
      IsClean-append (validate_candidate_ref x (indexed name index) refs)
        (validate_refs refs name (index + 1) xs) h in
    (ref-IsEndpoint x _ refs first, refs-IsEndpoint refs name (index + 1) xs rest)

pub enumerate-All :
    {A : Type 0} (issues : A → Text → List Issue) (P : A → Type 0)
    → ((x : A) (path : Text) → IsClean (issues x path) → P x)
    → (name : Text) (index : ℕ) (xs : List A) → IsClean (enumerate issues name index xs)
    → All P xs
unfolding enumerate
enumerate-All issues P each name index [] h = tt
enumerate-All issues P each name index (x ∷ xs) h =
    let (first, rest) =
      IsClean-append (issues x (indexed name index)) (enumerate issues name (index + 1) xs) h in
    (each x _ first, enumerate-All issues P each name (index + 1) xs rest)

-- An entity that is not the owner.
pub record IsEntity (e : CandidateEntity) : Type 0 where
  pub label : elem text_discrete e.entity_type core_node_labels ≡ true
  pub backed : IsBacked e.base
  pub not_owner : e.base.local_ref ≢ owner_alias
  pub no_owner :
      is_person e.entity_type && is_true (get e.typed_properties (codes "is_owner")) ≡ false

pub entity_issues-IsEntity :
    (e : CandidateEntity) (path : Text) → IsClean (entity_issues e path) → IsEntity e
unfolding entity_issues validate_owner_entity
entity_issues-IsEntity e path h =
    let (front, owner) =
      IsClean-append (validate_label e.entity_type path ++ validate_evidence e.base path) _ h in
    let (label, backed) = IsClean-append (validate_label e.entity_type path) _ front in
    let (two, flag) = IsClean-append _ (when _ _ _) owner in
    let (alias, person) = IsClean-append (when _ _ _) (when _ _ _) two in
    let no_alias = IsClean-when _ _ _ alias in
    record {
      label = label_known e.entity_type path label;
      backed = evidence-IsBacked e.base path backed;
      not_owner = λ same. absurd (ground (arith, no_alias, same));
      no_owner = IsClean-when _ _ _ person;
    }

pub record IsRelationship (refs : List Text) (x : CandidateRelationship) : Type 0 where
  pub type : elem text_discrete x.relationship_type core_relationship_types ≡ true
  pub source : IsEndpoint refs x.from_ref
  pub target : IsEndpoint refs x.to_ref
  pub backed : IsBacked x.base

pub relationship_issues-IsRelationship :
    (refs : List Text) (x : CandidateRelationship) (path : Text)
    → IsClean (relationship_issues refs x path)
    → IsRelationship refs x
unfolding relationship_issues
relationship_issues-IsRelationship refs x path h =
    let (h1, backed) = IsClean-append _ (validate_evidence x.base path) h in
    let (h2, target) = IsClean-append _ (validate_candidate_ref x.to_ref _ refs) h1 in
    let (type, source) =
      IsClean-append (validate_type x.relationship_type path)
        (validate_candidate_ref x.from_ref _ refs) h2 in
    record {
      type = type_known x.relationship_type path type;
      source = ref-IsEndpoint x.from_ref _ refs source;
      target = ref-IsEndpoint x.to_ref _ refs target;
      backed = evidence-IsBacked x.base path backed;
    }

-- A patch of something known, that does not rewrite the owner.
pub record IsPatch (refs : List Text) (x : CandidatePatch) : Type 0 where
  pub target : IsEndpoint refs x.target_ref
  pub backed : IsBacked x.base
  pub not_owner :
      holds (text_discrete x.target_ref owner_alias) && elem text_discrete x.path owner_paths
      ≡ false

pub patch_issues-IsPatch :
    (refs : List Text) (x : CandidatePatch) (path : Text)
    → IsClean (patch_issues refs x path)
    → IsPatch refs x
unfolding patch_issues
patch_issues-IsPatch refs x path h =
    let (h1, owner) = IsClean-append _ (when _ _ _) h in
    let (target, backed) =
      IsClean-append (validate_candidate_ref x.target_ref _ refs) (validate_evidence x.base path)
        h1 in
    record {
      target = ref-IsEndpoint x.target_ref _ refs target;
      backed = evidence-IsBacked x.base path backed;
      not_owner = IsClean-when _ _ _ owner;
    }

-- An inferred trait of the owner is to be confirmed.
abbrev pub IsProfile : CandidateProfileMemory → Type 0
IsProfile x = (x.is_inferred && not x.base.requires_confirmation ≡ false) × IsBacked x.base

pub profile_issues-IsProfile :
    (x : CandidateProfileMemory) (path : Text) → IsClean (profile_issues x path) → IsProfile x
unfolding profile_issues
profile_issues-IsProfile x path h =
    let (h1, backed) = IsClean-append _ (validate_evidence x.base path) h in
    let (owner, inferred) = IsClean-append (when _ _ _) (when _ _ _) h1 in
    (IsClean-when _ _ _ inferred, evidence-IsBacked x.base path backed)

-- A claim, a perception and a context: what they are about is known, and they are backed.
abbrev pub IsClaim : List Text → CandidateClaim → Type 0
IsClaim refs x = All (IsEndpoint refs) x.about_refs × IsBacked x.base

pub claim_issues-IsClaim :
    (refs : List Text) (x : CandidateClaim) (path : Text)
    → IsClean (claim_issues refs x path)
    → IsClaim refs x
unfolding claim_issues
claim_issues-IsClaim refs x path h =
    let (about, backed) =
      IsClean-append (validate_refs refs _ 0 x.about_refs) (validate_evidence x.base path) h in
    (refs-IsEndpoint refs _ 0 x.about_refs about, evidence-IsBacked x.base path backed)

abbrev pub IsPerception : List Text → CandidatePerception → Type 0
IsPerception refs x = IsEndpoint refs x.target_ref × IsBacked x.base

pub perception_issues-IsPerception :
    (refs : List Text) (x : CandidatePerception) (path : Text)
    → IsClean (perception_issues refs x path)
    → IsPerception refs x
unfolding perception_issues
perception_issues-IsPerception refs x path h =
    let (target, backed) =
      IsClean-append (validate_candidate_ref x.target_ref _ refs) (validate_evidence x.base path)
        h in
    (ref-IsEndpoint x.target_ref _ refs target, evidence-IsBacked x.base path backed)

abbrev pub IsContext : List Text → CandidateContext → Type 0
IsContext refs x = IsEndpoint refs x.from_ref × IsEndpoint refs x.to_ref × IsBacked x.base

pub context_issues-IsContext :
    (refs : List Text) (x : CandidateContext) (path : Text)
    → IsClean (context_issues refs x path)
    → IsContext refs x
unfolding context_issues
context_issues-IsContext refs x path h =
    let (h1, backed) = IsClean-append _ (validate_evidence x.base path) h in
    let (source, target) =
      IsClean-append (validate_candidate_ref x.from_ref _ refs)
        (validate_candidate_ref x.to_ref _ refs) h1 in
    (
      ref-IsEndpoint x.from_ref _ refs source,
      ref-IsEndpoint x.to_ref _ refs target,
      evidence-IsBacked x.base path backed,
    )
