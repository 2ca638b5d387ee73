-- ===== src/Ingest/Candidates/Validate.antt =====
-- ingestion/validation.py, `IngestionValidator.validate_candidate_graph`.
use my_digital_brain.Base.{
  List, Text, [], codes, elem, empty, get, has, holds, text_discrete, ℕ, ◌&&◌, ◌++◌, ◌+◌, ◌∷◌, not,
}
use my_digital_brain.References.Entry.{owner_alias}
use my_digital_brain.Graph.Values.{is_true}
use my_digital_brain.Ingest.Issues.{
  Issue, ValidationResult, from_issues, when, indexed, counter, repeated_issues,
}
use my_digital_brain.Ingest.Validate.{validate_label, validate_type, is_person}
use my_digital_brain.Ingest.Candidates.{
  CandidateBase, CandidateEntity, CandidateRelationship, CandidateClaim, CandidatePerception,
  CandidateContext, CandidatePatch, CandidateProfileMemory, MemoryLog, CandidateGraph, is_empty,
  assigned_refs, candidate_refs,
}
use my_digital_brain.Ingest.Candidates.Logs.{
  validate_candidate_ref, validate_refs, validate_memory_log,
}

-- `for index, x in enumerate(xs)`, over the issues of each element
unfoldable pub enumerate : {A : Type 0} → (A → Text → List Issue) → Text → ℕ → List A → List Issue
enumerate issues name index [] = []
enumerate issues name index (x ∷ xs) =
    issues x (indexed name index) ++ enumerate issues name (index + 1) xs

-- `_validate_evidence`
unfoldable pub validate_evidence : CandidateBase → Text → List Issue
validate_evidence base path =
    when (is_empty base.source_refs && is_empty base.evidence_refs) path
      (codes "missing_candidate_evidence")

-- `_validate_owner_entity`
unfoldable pub validate_owner_entity : CandidateEntity → Text → List Issue
validate_owner_entity e path =
    when (holds (text_discrete e.base.local_ref owner_alias)) (path ++ codes ".local_ref")
      (codes "owner_duplicate_candidate")
    ++ when (is_person e.entity_type && is_true (get e.typed_properties (codes "is_owner")))
        (path ++ codes ".typed_properties.is_owner") (codes "owner_creation_forbidden")
    ++ when (not (is_person e.entity_type) && has e.typed_properties (codes "is_owner"))
        (path ++ codes ".typed_properties.is_owner") (codes "invalid_owner_property")

unfoldable pub entity_issues : CandidateEntity → Text → List Issue
entity_issues e path =
    validate_label e.entity_type path
    ++ validate_evidence e.base path
    ++ validate_owner_entity e path

unfoldable pub profile_issues : CandidateProfileMemory → Text → List Issue
profile_issues x path =
    when (not (holds (text_discrete x.owner_ref owner_alias))) (path ++ codes ".owner_ref")
      (codes "invalid_owner_ref")
    ++ when (x.is_inferred && not x.base.requires_confirmation)
        (path ++ codes ".requires_confirmation") (codes "inferred_owner_trait_not_confirmed")
    ++ validate_evidence x.base path

-- The properties of the owner that no patch may set.
abbrev pub owner_paths : List Text
owner_paths =
    codes "is_owner"
    ∷ codes "personality"
    ∷ codes "preference"
    ∷ codes "goal"
    ∷ codes "work_style"
    ∷ codes "profile_key"
    ∷ codes "stability"
    ∷ codes "visibility"
    ∷ []

module _ (known_refs : List Text) where
  unfoldable pub relationship_issues : CandidateRelationship → Text → List Issue
  relationship_issues x path =
      validate_type x.relationship_type path
      ++ validate_candidate_ref x.from_ref (path ++ codes ".from_ref") known_refs
      ++ validate_candidate_ref x.to_ref (path ++ codes ".to_ref") known_refs
      ++ validate_evidence x.base path

  unfoldable pub claim_issues : CandidateClaim → Text → List Issue
  claim_issues x path =
      validate_refs known_refs (path ++ codes ".about_refs") 0 x.about_refs
      ++ validate_evidence x.base path

  unfoldable pub perception_issues : CandidatePerception → Text → List Issue
  perception_issues x path =
      validate_candidate_ref x.target_ref (path ++ codes ".target_ref") known_refs
      ++ validate_evidence x.base path

  unfoldable pub context_issues : CandidateContext → Text → List Issue
  context_issues x path =
      validate_candidate_ref x.from_ref (path ++ codes ".from_ref") known_refs
      ++ validate_candidate_ref x.to_ref (path ++ codes ".to_ref") known_refs
      ++ validate_evidence x.base path

  unfoldable pub log_issues : MemoryLog → Text → List Issue
  log_issues log path = validate_memory_log log path known_refs

  unfoldable pub patch_issues : CandidatePatch → Text → List Issue
  patch_issues x path =
      validate_candidate_ref x.target_ref (path ++ codes ".target_ref") known_refs
      ++ validate_evidence x.base path
      ++ when
          (holds (text_discrete x.target_ref owner_alias) && elem text_discrete x.path owner_paths)
          (path ++ codes ".path") (codes "owner_profile_patch_forbidden")

-- `_validate_local_ref_uniqueness`
unfoldable pub validate_local_ref_uniqueness : CandidateGraph → List Issue
validate_local_ref_uniqueness g =
    repeated_issues (codes "duplicate_local_ref") (counter empty (assigned_refs g))

-- `validate_candidate_graph`
unfoldable pub validate_candidate_graph : CandidateGraph → ValidationResult
validate_candidate_graph g =
    let known_refs = candidate_refs g in
    from_issues (
      validate_local_ref_uniqueness g
      ++ enumerate entity_issues (codes "candidate_entities") 0 g.candidate_entities
      ++ enumerate profile_issues (codes "candidate_profile_memories") 0
          g.candidate_profile_memories
      ++ enumerate (relationship_issues known_refs) (codes "candidate_relationships") 0
          g.candidate_relationships
      ++ enumerate (claim_issues known_refs) (codes "candidate_claims") 0 g.candidate_claims
      ++ enumerate (perception_issues known_refs) (codes "candidate_perceptions") 0
          g.candidate_perceptions
      ++ enumerate (context_issues known_refs) (codes "candidate_relationship_contexts") 0
          g.candidate_relationship_contexts
      ++ enumerate (log_issues known_refs) (codes "memory_logs") 0 g.memory_logs
      ++ enumerate (patch_issues known_refs) (codes "candidate_metadata_patches") 0
          g.candidate_metadata_patches)
