-- ===== src/Ingest/Candidates.antt =====
-- ingestion/contracts/candidates.py and memory_logs.py: what the validator reads of a candidate
-- graph. An evidence reference is kept as its text, since only its presence is read.
pub mod Validate
pub mod Logs
pub mod Elements
pub mod WellFormed
use my_digital_brain.Base.{
  Bool, List, Option, Table, Text, [], false, keys, map, none, some, true, ◌++◌, ◌∷◌,
}
use my_digital_brain.Graph.Values.{Properties}

-- `CandidateBase`
pub record CandidateBase : Type 0 where
  pub local_ref : Text
  pub evidence_refs : List Text
  pub source_refs : List Text
  pub requires_confirmation : Bool

-- `CandidateEntity`
pub record CandidateEntity : Type 0 where
  pub base : CandidateBase
  pub entity_type : Text
  pub typed_properties : Properties

-- `CandidateRelationship`
pub record CandidateRelationship : Type 0 where
  pub base : CandidateBase
  pub relationship_type : Text
  pub from_ref : Text
  pub to_ref : Text

-- `CandidateClaim`
pub record CandidateClaim : Type 0 where
  pub base : CandidateBase
  pub about_refs : List Text

-- `CandidatePerception`
pub record CandidatePerception : Type 0 where
  pub base : CandidateBase
  pub target_ref : Text

-- `CandidateRelationshipContext`
pub record CandidateContext : Type 0 where
  pub base : CandidateBase
  pub from_ref : Text
  pub to_ref : Text

-- `CandidateMetadataPatch`
pub record CandidatePatch : Type 0 where
  pub base : CandidateBase
  pub target_ref : Text
  pub path : Text

-- `CandidateProfileMemory`; the flag is set for the mode `inferred`.
pub record CandidateProfileMemory : Type 0 where
  pub base : CandidateBase
  pub owner_ref : Text
  pub is_inferred : Bool

-- `MemoryLogLink`
pub record MemoryLogLink : Type 0 where
  pub target_id : Text
  pub relationship_type : Text
  pub primary : Bool

-- `MemoryLog`
pub record MemoryLog : Type 0 where
  pub local_ref : Option Text
  pub log_text : Text
  pub primary_host_target_id : Option Text
  pub host_target_ids : List Text
  pub involved_target_ids : List Text
  pub links : List MemoryLogLink
  pub source_refs : List Text
  pub evidence_refs : List Text

-- `CandidateMemoryGraph`
pub record CandidateGraph : Type 0 where
  pub candidate_entities : List CandidateEntity
  pub candidate_relationships : List CandidateRelationship
  pub candidate_claims : List CandidateClaim
  pub candidate_perceptions : List CandidatePerception
  pub candidate_relationship_contexts : List CandidateContext
  pub memory_logs : List MemoryLog
  pub candidate_metadata_patches : List CandidatePatch
  pub candidate_profile_memories : List CandidateProfileMemory
  pub local_ref_map : Table Text

-- `if s`
unfoldable pub is_given : Option Text → Bool
is_given none = false
is_given (some []) = false
is_given (some (c ∷ s)) = true

unfoldable pub is_empty {ℓ} : {A : Type ℓ} → List A → Bool
is_empty [] = true
is_empty (x ∷ xs) = false

-- `_all_candidates`
unfoldable pub all_candidates : CandidateGraph → List CandidateBase
all_candidates g =
    map (λ (x : CandidateEntity). x.base) g.candidate_entities
    ++ map (λ (x : CandidateRelationship). x.base) g.candidate_relationships
    ++ map (λ (x : CandidateClaim). x.base) g.candidate_claims
    ++ map (λ (x : CandidatePerception). x.base) g.candidate_perceptions
    ++ map (λ (x : CandidateContext). x.base) g.candidate_relationship_contexts
    ++ map (λ (x : CandidatePatch). x.base) g.candidate_metadata_patches
    ++ map (λ (x : CandidateProfileMemory). x.base) g.candidate_profile_memories

-- `memory_log.local_ref for ... if memory_log.local_ref`
unfoldable pub log_refs : List MemoryLog → List Text
log_refs [] = []
log_refs (log ∷ logs) = elim log.local_ref [
  | none ↦ log_refs logs
  | some [] ↦ log_refs logs
  | some (c ∷ s) ↦ (c ∷ s) ∷ log_refs logs
]

-- The references of `_validate_local_ref_uniqueness`.
unfoldable pub assigned_refs : CandidateGraph → List Text
assigned_refs g =
    map (λ (x : CandidateBase). x.local_ref) (all_candidates g) ++ log_refs g.memory_logs

-- `_candidate_refs`
unfoldable pub candidate_refs : CandidateGraph → List Text
candidate_refs g = keys g.local_ref_map ++ assigned_refs g
