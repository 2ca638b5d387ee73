-- ===== src/Ingest/Validate/Accepted.antt =====
-- Labels and types that the validator accepts.
use my_digital_brain.Base.{Bool-cases, Text, arith, elem, inl, inr, text_discrete, true, ◌≡◌}
use my_digital_brain.Graph.Labels.{
  core_node_labels, core_relationship_types, validate_node_label, validate_relationship_type,
}
use my_digital_brain.Ingest.Issues.{when, is_error, issue}
use my_digital_brain.Ingest.Issues.Clean.{IsClean}
use my_digital_brain.Ingest.Validate.{raised, validate_label, validate_type}

pub label_known :
    (label path : Text)
    → IsClean (validate_label label path)
    → elem text_discrete label core_node_labels ≡ true
unfolding validate_label raised validate_node_label when issue is_error
label_known label path h = elim (Bool-cases (elem text_discrete label core_node_labels)) [
  | inl known ↦ known
  | inr unknown ↦ absurd (ground arith)
]

pub type_known :
    (type path : Text)
    → IsClean (validate_type type path)
    → elem text_discrete type core_relationship_types ≡ true
unfolding validate_type raised validate_relationship_type when issue is_error
type_known type path h = elim (Bool-cases (elem text_discrete type core_relationship_types)) [
  | inl known ↦ known
  | inr unknown ↦ absurd (ground arith)
]
