-- ===== src/Ingest/Candidates/WellFormed.antt =====
-- What a candidate graph is that the validator accepts.
use my_digital_brain.Base.{
  some, All, List, Text, false, ok, true, ◌&&◌, ◌∷◌, ◌≡◌, ◌≤◌, elem, Option, text_discrete,
}
use my_digital_brain.Graph.Labels.{core_relationship_types}
use my_digital_brain.Ingest.Issues.Clean.{IsEndpoint, occurrences}
use my_digital_brain.Ingest.Candidates.{
  MemoryLogLink, MemoryLog, is_empty, CandidateGraph, assigned_refs, candidate_refs,
}
use my_digital_brain.Ingest.Candidates.Logs.{build_memory_log, is_blank, is_host}
use my_digital_brain.Ingest.Candidates.Elements.{
  IsEntity, IsRelationship, IsPatch, IsProfile, IsClaim, IsPerception, IsContext,
}

-- A link of a known type to a known target; a host link has a target.
pub record IsLink (refs : List Text) (link : MemoryLogLink) : Type 0 where
  pub type : elem text_discrete link.relationship_type core_relationship_types ≡ true
  pub target : IsEndpoint refs link.target_id
  pub given : is_host link && is_empty link.target_id ≡ false

-- The primary host, where there is one.
abbrev pub IsHost : List Text → Option Text → Type 0
IsHost refs (some (c ∷ s)) = IsEndpoint refs (c ∷ s)
IsHost refs _ = Unit

-- A memory log that can be built, with a reference and a text, whose targets and types are known.
pub record IsLog (refs : List Text) (log : MemoryLog) : Type 0 where
  pub built : build_memory_log log ≡ ok log
  pub named : is_blank log.local_ref ≡ false
  pub told : is_blank (some log.log_text) ≡ false
  pub backed : is_empty log.source_refs && is_empty log.evidence_refs ≡ false
  pub primary : IsHost refs log.primary_host_target_id
  pub hosts : All (IsEndpoint refs) log.host_target_ids
  pub involved : All (IsEndpoint refs) log.involved_target_ids
  pub links : All (IsLink refs) log.links

-- A candidate graph that may become a write plan.
pub record IsAcceptable (g : CandidateGraph) : Type 0 where
  pub once : (ref : Text) → occurrences ref (assigned_refs g) ≤ 1
  pub entities : All IsEntity g.candidate_entities
  pub profiles : All IsProfile g.candidate_profile_memories
  pub relationships : All (IsRelationship (candidate_refs g)) g.candidate_relationships
  pub claims : All (IsClaim (candidate_refs g)) g.candidate_claims
  pub perceptions : All (IsPerception (candidate_refs g)) g.candidate_perceptions
  pub contexts : All (IsContext (candidate_refs g)) g.candidate_relationship_contexts
  pub logs : All (IsLog (candidate_refs g)) g.memory_logs
  pub patches : All (IsPatch (candidate_refs g)) g.candidate_metadata_patches
