-- ===== src/Graph/Labels.antt =====
-- graph/registry.py: the labels, types and directions that the graph accepts.
use my_digital_brain.Base.{
  List, Option, Result, Text, [], codes, elem, err, if◌then◌else◌, none, ok, some, text_discrete,
  ◌∷◌,
}

abbrev pub core_node_labels : List Text
core_node_labels =
    codes "Person"
    ∷ codes "Event"
    ∷ codes "Place"
    ∷ codes "Organization"
    ∷ codes "Object"
    ∷ codes "Animal"
    ∷ codes "SocialCircle"
    ∷ codes "Topic"
    ∷ codes "Source"
    ∷ codes "Claim"
    ∷ codes "Perception"
    ∷ codes "RelationshipContext"
    ∷ codes "ProfileMemory"
    ∷ codes "ContactPoint"
    ∷ codes "ExternalReference"
    ∷ codes "ExtractionRun"
    ∷ codes "RelationshipState"
    ∷ codes "ChangeRecord"
    ∷ codes "MemoryLog"
    ∷ codes "MediaAsset"
    ∷ codes "ContradictionRecord"
    ∷ codes "MergeRecord"
    ∷ []

abbrev pub core_relationship_types : List Text
core_relationship_types =
    codes "MENTIONED_IN"
    ∷ codes "SUPPORTED_BY"
    ∷ codes "DERIVED_FROM"
    ∷ codes "PARTICIPATED_IN"
    ∷ codes "HAPPENED_AT"
    ∷ codes "ABOUT"
    ∷ codes "RELATED_TO"
    ∷ codes "HAS_CONTACT_POINT"
    ∷ codes "HAS_EXTERNAL_REFERENCE"
    ∷ codes "DESCRIBES_USER"
    ∷ codes "CONTRADICTS"
    ∷ codes "PERCEIVES"
    ∷ codes "PERCEPTION_OF"
    ∷ codes "HAS_RELATIONSHIP_CONTEXT"
    ∷ codes "RELATIONSHIP_WITH"
    ∷ codes "HAS_AFFECTIVE_CONTEXT"
    ∷ codes "KNOWS"
    ∷ codes "WORKS_AT"
    ∷ codes "OWNS"
    ∷ codes "OWNED_BY"
    ∷ codes "CARED_FOR_BY"
    ∷ codes "LIVES_WITH"
    ∷ codes "MEMBER_OF"
    ∷ codes "LOCATED_IN"
    ∷ codes "ALIAS_OF"
    ∷ codes "SAME_AS"
    ∷ codes "CONFIGURES"
    ∷ codes "PRIMARY_CONTACT_FOR"
    ∷ codes "HAS_RELATIONSHIP_STATE"
    ∷ codes "HAS_CHANGE_RECORD"
    ∷ codes "HAS_MEMORY_LOG"
    ∷ codes "INVOLVES"
    ∷ codes "UPDATES_RELATIONSHIP"
    ∷ codes "HAS_MEDIA"
    ∷ codes "DEPICTS"
    ∷ codes "CAPTURED_AT"
    ∷ codes "CAPTURES_EVENT"
    ∷ codes "HAS_CONTRADICTION_RECORD"
    ∷ codes "MERGED_NODE"
    ∷ codes "CANONICAL_NODE"
    ∷ codes "MERGED_INTO"
    ∷ []

-- The `GraphValidationError`s of the module.
pub data LabelError : Type 0 where
  unsupported_label : Text → LabelError
  unsupported_type : Text → LabelError
  unsupported_direction : Text → LabelError
  no_supported_label : List Text → LabelError

-- `validate_node_label`
unfoldable pub validate_node_label : Text → Result LabelError Text
validate_node_label label =
    if elem text_discrete label core_node_labels then ok label else err (unsupported_label label)

-- `validate_relationship_type`
unfoldable pub validate_relationship_type : Text → Result LabelError Text
validate_relationship_type type =
    if elem text_discrete type core_relationship_types then ok type else err (unsupported_type type)

-- `validate_relationship_direction`
unfoldable pub validate_relationship_direction : Text → Result LabelError Text
validate_relationship_direction direction =
    if elem text_discrete direction (codes "in" ∷ codes "out" ∷ codes "both" ∷ [])
    then ok direction
    else err (unsupported_direction direction)

-- The loop of `primary_core_label`.
unfoldable pub first_core_label : List Text → Option Text
first_core_label [] = none
first_core_label (label ∷ labels) =
    if elem text_discrete label core_node_labels then some label else first_core_label labels

-- `primary_core_label`
unfoldable pub primary_core_label : List Text → Result LabelError Text
unfolding first_core_label
primary_core_label labels = elim (first_core_label labels) [
  | some label ↦ ok label
  | none ↦ err (no_supported_label labels)
]
