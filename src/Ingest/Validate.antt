-- ===== src/Ingest/Validate.antt =====
-- ingestion/validation.py, `IngestionValidator.validate_write_plan`. A method that appends to the
-- issues returns what it appends.
pub mod Accepted
pub mod WellFormed
use my_digital_brain.Base.{
  Bool, List, Result, Table, Text, [], codes, elem, empty, err, get, has, holds, keys, map, none,
  ok, some, some_of, text_discrete, true, ℕ, ◌&&◌, ◌++◌, ◌+◌, ◌||◌, ◌∷◌, not,
}
use my_digital_brain.References.Entry.{owner_alias}
use my_digital_brain.References.Registry.Read.{from_snapshot, backend_alias_map}
use my_digital_brain.Graph.Values.{is_true}
use my_digital_brain.Graph.Labels.{validate_node_label, validate_relationship_type}
use my_digital_brain.Ingest.Plan.{NodeWrite, RelationshipWrite, Metadata, Plan}
use my_digital_brain.Ingest.Issues.{
  Issue, when, counter, indexed, from_issues, repeated_issues, is_candidate_ref, ValidationResult,
}

-- The issue of a call that raised.
unfoldable pub raised : {E A : Type 0} → Result E A → Text → Text → List Issue
raised (ok _) field_path code = []
raised (err _) field_path code = when true field_path code

-- `_validate_label`
unfoldable pub validate_label : Text → Text → List Issue
validate_label label path =
    raised (validate_node_label label) (path ++ codes ".label") (codes "unsupported_node_label")

-- `_validate_relationship_type`
unfoldable pub validate_type : Text → Text → List Issue
validate_type type path =
    raised (validate_relationship_type type) (path ++ codes ".relationship_type")
      (codes "unsupported_relationship_type")

unfoldable pub is_person : Text → Bool
is_person label = holds (text_discrete label (codes "Person"))

abbrev pub profile_keys : List Text
profile_keys =
    codes "profile_key"
    ∷ codes "stability"
    ∷ codes "visibility"
    ∷ codes "personality"
    ∷ codes "preference"
    ∷ codes "goal"
    ∷ []

-- `_validate_owner_properties`
unfoldable pub validate_owner_properties : NodeWrite → Text → List Issue
validate_owner_properties w path =
    when (is_person w.label && is_true (get w.properties (codes "is_owner")))
      (path ++ codes ".properties.is_owner") (codes "owner_creation_forbidden")
    ++ when (not (is_person w.label) && has w.properties (codes "is_owner"))
        (path ++ codes ".properties.is_owner") (codes "invalid_owner_property")
    ++ when (is_person w.label && some_of (has w.properties) profile_keys)
        (path ++ codes ".properties") (codes "profile_data_on_person_forbidden")

-- `_validate_write_ref_uniqueness`
unfoldable pub validate_write_ref_uniqueness : List NodeWrite → List Issue
validate_write_ref_uniqueness writes =
    repeated_issues (codes "duplicate_write_ref")
      (counter empty (map (λ (w : NodeWrite). w.local_ref) writes))

-- The loop over the node writes.
unfoldable pub node_issues : ℕ → List NodeWrite → List Issue
node_issues index [] = []
node_issues index (w ∷ writes) =
    validate_label w.label (indexed (codes "node_writes") index)
    ++ validate_owner_properties w (indexed (codes "node_writes") index)
    ++ node_issues (index + 1) writes

-- `_validate_write_endpoint`
unfoldable pub validate_write_endpoint : Text → Text → List Text → List Issue
validate_write_endpoint ref path local_refs =
    when (is_candidate_ref ref && not (elem text_discrete ref local_refs)) path
      (codes "unknown_write_endpoint")

unfoldable pub is_owner : Text → Bool
is_owner ref = holds (text_discrete ref owner_alias)

-- One round of the loop over the relationship writes.
unfoldable pub relationship_issue : List Text → Table Text → Text → RelationshipWrite → List Issue
relationship_issue local_refs aliases prefix w =
    validate_type w.relationship_type prefix
    ++ validate_write_endpoint w.from_ref (prefix ++ codes ".from_ref") local_refs
    ++ validate_write_endpoint w.to_ref (prefix ++ codes ".to_ref") local_refs
    ++ when
        (holds (text_discrete w.relationship_type (codes "DESCRIBES_USER"))
          && not (is_owner w.to_ref))
        (prefix ++ codes ".to_ref") (codes "profile_relationship_owner_required")
    ++ when ((is_owner w.from_ref || is_owner w.to_ref) && not (has aliases owner_alias)) prefix
        (codes "missing_owner_alias_mapping")

unfoldable pub relationship_issues :
    List Text → Table Text → ℕ → List RelationshipWrite → List Issue
relationship_issues local_refs aliases index [] = []
relationship_issues local_refs aliases index (w ∷ writes) =
    relationship_issue local_refs aliases (indexed (codes "relationship_writes") index) w
    ++ relationship_issues local_refs aliases (index + 1) writes

-- The aliases that relationships of the owner are checked against, and the issue of a snapshot.
unfoldable pub owner_alias_map : Metadata → Table Text × List Issue
owner_alias_map metadata = elim metadata.reference_registry_snapshot [
  | none ↦ (metadata.alias_map, [])
  | some snapshot ↦ elim (from_snapshot snapshot none none) [
    | ok registry ↦ (backend_alias_map registry, [])
    | err error ↦ (
      metadata.alias_map,
      when true (codes "metadata.reference_registry_snapshot")
          (codes "invalid_reference_registry_snapshot"),
    )
  ]
]

-- The node writes, in the order of the validator.
unfoldable pub node_writes : Plan → List NodeWrite
node_writes p =
    p.nodes_to_create ++ p.nodes_to_update ++ p.claims_to_create ++ p.perceptions_to_create
    ++ p.relationship_contexts_to_create ++ p.memory_logs_to_create ++ p.profile_memories_to_create

-- `local_refs`
unfoldable pub local_refs : Plan → List Text
local_refs p =
    map (λ (w : NodeWrite). w.local_ref) (node_writes p) ++ keys p.metadata.local_ref_resolution

-- `validate_write_plan`
unfoldable pub validate_write_plan : Plan → ValidationResult
validate_write_plan p =
    let aliases = owner_alias_map p.metadata in
    from_issues (
      validate_write_ref_uniqueness (node_writes p)
      ++ node_issues 0 (node_writes p)
      ++ aliases.1
      ++ relationship_issues (local_refs p) aliases.0 0
          (p.relationships_to_create ++ p.relationships_to_update))
