-- ===== src/Tests/Candidates.antt =====
-- The validation of candidate graphs at a concrete input.
use my_digital_brain.Ingest.Candidates.{CandidateBase, CandidateGraph}
use my_digital_brain.Base.{Text, [], codes, some, true, ◌∷◌}

abbrev base : Text → CandidateBase
base ref = record {
  local_ref = ref;
  evidence_refs = [];
  source_refs = codes "m1" ∷ [];
  requires_confirmation = true;
}

abbrev graph : CandidateGraph
graph = record {
  candidate_entities =
      record {
        base = base (codes "CANDIDATE_PERSON_001");
        entity_type = codes "Person";
        typed_properties = [];
      }
      ∷ [];
  candidate_relationships =
      record {
        base = base (codes "CANDIDATE_REL_001");
        relationship_type = codes "KNOWS";
        from_ref = codes "CANDIDATE_PERSON_001";
        to_ref = codes "OWNER";
      }
      ∷ [];
  candidate_claims =
      record {
        base = base (codes "CANDIDATE_CLAIM_001");
        about_refs = codes "CANDIDATE_PERSON_001" ∷ [];
      }
      ∷ [];
  candidate_perceptions =
      record { base = base (codes "CANDIDATE_PERCEPTION_001"); target_ref = codes "NODE_000001" }
      ∷ [];
  candidate_relationship_contexts =
      record {
        base = base (codes "CANDIDATE_CONTEXT_001");
        from_ref = codes "OWNER";
        to_ref = codes "CANDIDATE_PERSON_001";
      }
      ∷ [];
  memory_logs =
      record {
        local_ref = some (codes "CANDIDATE_LOG_001");
        log_text = codes "a walk";
        primary_host_target_id = some (codes "OWNER");
        host_target_ids = codes "CANDIDATE_PERSON_001" ∷ [];
        involved_target_ids = [];
        links =
            record {
              target_id = codes "OWNER";
              relationship_type = codes "HAS_MEMORY_LOG";
              primary = true;
            }
            ∷ [];
        source_refs = codes "m1" ∷ [];
        evidence_refs = [];
      }
      ∷ [];
  candidate_metadata_patches =
      record {
        base = base (codes "CANDIDATE_PATCH_001");
        target_ref = codes "OWNER";
        path = codes "aliases";
      }
      ∷ [];
  candidate_profile_memories =
      record {
        base = base (codes "CANDIDATE_PROFILE_001");
        owner_ref = codes "OWNER";
        is_inferred = true;
      }
      ∷ [];
  local_ref_map = [];
}
