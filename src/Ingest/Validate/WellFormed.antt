-- ===== src/Ingest/Validate/WellFormed.antt =====
-- What a plan is that the validator accepts.
use my_digital_brain.Base.{
  All, List, Table, Text, [], arith, codes, elem, empty, false, get, has, holds, map, some_of,
  text_discrete, true, ℕ, ◌&&◌, ◌++◌, ◌+◌, ◌||◌, ◌∷◌, ◌≡◌, ◌≤◌, not,
}
use my_digital_brain.References.Entry.{owner_alias}
use my_digital_brain.Graph.Values.{is_true}
use my_digital_brain.Graph.Labels.{core_node_labels, core_relationship_types}
use my_digital_brain.Ingest.Plan.{NodeWrite, RelationshipWrite, Plan}
use my_digital_brain.Ingest.Issues.{is_error, when, issue, indexed}
use my_digital_brain.Ingest.Issues.Clean.{
  IsClean, IsClean-append, IsClean-when, valid-IsClean, occurrences, counter-occurrences,
  repeated-once, IsEndpoint,
}
use my_digital_brain.Ingest.Validate.Accepted.{label_known, type_known}
use my_digital_brain.Ingest.Validate.{
  validate_label, validate_type, is_person, profile_keys, validate_owner_properties,
  validate_write_ref_uniqueness, node_issues, validate_write_endpoint, is_owner, relationship_issue,
  relationship_issues, owner_alias_map, node_writes, local_refs, validate_write_plan,
}

-- The write is no new owner, and carries neither the owner's flag nor its profile.
abbrev pub NoOwner : NodeWrite → Type 0
NoOwner w =
    (is_person w.label && is_true (get w.properties (codes "is_owner")) ≡ false)
    × (not (is_person w.label) && has w.properties (codes "is_owner") ≡ false)
    × (is_person w.label && some_of (has w.properties) profile_keys ≡ false)

-- A node write that the validator accepts.
pub record IsNodeWrite (w : NodeWrite) : Type 0 where
  pub label : elem text_discrete w.label core_node_labels ≡ true
  pub no_owner : NoOwner w

-- A relationship write that the validator accepts.
pub record IsRelationshipWrite (refs : List Text) (aliases : Table Text) (w : RelationshipWrite)
    : Type 0 where
  pub type : elem text_discrete w.relationship_type core_relationship_types ≡ true
  pub source : IsEndpoint refs w.from_ref
  pub target : IsEndpoint refs w.to_ref
  pub describes_owner :
      holds (text_discrete w.relationship_type (codes "DESCRIBES_USER")) && not (is_owner w.to_ref)
      ≡ false
  pub has_owner :
      (is_owner w.from_ref || is_owner w.to_ref) && not (has aliases owner_alias) ≡ false

owner-clean : (w : NodeWrite) (path : Text) → IsClean (validate_owner_properties w path) → NoOwner w
unfolding validate_owner_properties when issue is_error
owner-clean w path h = ground arith

nodes-IsNodeWrite :
    (index : ℕ) (writes : List NodeWrite)
    → IsClean (node_issues index writes)
    → All IsNodeWrite writes
unfolding node_issues
nodes-IsNodeWrite index [] h = tt
nodes-IsNodeWrite index (w ∷ writes) h =
    let path = indexed (codes "node_writes") index in
    let (first, others) =
      IsClean-append (validate_label w.label path ++ validate_owner_properties w path)
        (node_issues (index + 1) writes) h in
    let (label, owner) =
      IsClean-append (validate_label w.label path) (validate_owner_properties w path) first in
    (
      record { label = label_known w.label path label; no_owner = owner-clean w path owner },
      nodes-IsNodeWrite (index + 1) writes others,
    )

relationship-IsRelationshipWrite :
    (refs : List Text) (aliases : Table Text) (prefix : Text) (w : RelationshipWrite)
    → IsClean (relationship_issue refs aliases prefix w)
    → IsRelationshipWrite refs aliases w
unfolding relationship_issue validate_write_endpoint
relationship-IsRelationshipWrite refs aliases prefix w h =
    let (h1, owner) = IsClean-append _ (when _ _ _) h in
    let (h2, describes) = IsClean-append _ (when _ _ _) h1 in
    let (h3, target) = IsClean-append _ (when _ _ _) h2 in
    let (type, source) =
      IsClean-append (validate_type w.relationship_type prefix) (when _ _ _) h3 in
    record {
      type = type_known w.relationship_type prefix type;
      source = IsClean-when _ _ _ source;
      target = IsClean-when _ _ _ target;
      describes_owner = IsClean-when _ _ _ describes;
      has_owner = IsClean-when _ _ _ owner;
    }

relationships-IsRelationshipWrite :
    (refs : List Text) (aliases : Table Text) (index : ℕ) (writes : List RelationshipWrite)
    → IsClean (relationship_issues refs aliases index writes)
    → All (IsRelationshipWrite refs aliases) writes
unfolding relationship_issues
relationships-IsRelationshipWrite refs aliases index [] h = tt
relationships-IsRelationshipWrite refs aliases index (w ∷ writes) h =
    let path = indexed (codes "relationship_writes") index in
    let (first, rest) =
      IsClean-append (relationship_issue refs aliases path w)
        (relationship_issues refs aliases (index + 1) writes) h in
    (
      relationship-IsRelationshipWrite refs aliases path w first,
      relationships-IsRelationshipWrite refs aliases (index + 1) writes rest,
    )

-- A plan that the executor can run.
pub record IsWellFormed (p : Plan) : Type 0 where
  pub once :
      (ref : Text) → occurrences ref (map (λ (w : NodeWrite). w.local_ref) (node_writes p)) ≤ 1
  pub nodes : All IsNodeWrite (node_writes p)
  pub relationships :
      All
        (IsRelationshipWrite (local_refs p) (owner_alias_map p.metadata).0)
        (p.relationships_to_create ++ p.relationships_to_update)

-- In a plan that the validator accepts no reference names two node writes; every node has a label of
-- the graph, none is a new owner or carries the owner's flag or profile; every relationship has a
-- type of the graph, its candidate endpoints are written or resolved by the plan, what describes the
-- user points to the owner, and the owner is an endpoint only where its alias is mapped.
pub validate_write_plan-IsWellFormed :
    (p : Plan) → (validate_write_plan p).is_valid ≡ true → IsWellFormed p
unfolding validate_write_plan validate_write_ref_uniqueness
validate_write_plan-IsWellFormed p h =
    let unique = validate_write_ref_uniqueness (node_writes p) in
    let labels = node_issues 0 (node_writes p) in
    let aliases = owner_alias_map p.metadata in
    let edges =
      relationship_issues (local_refs p) aliases.0 0
        (p.relationships_to_create ++ p.relationships_to_update) in
    let (front, relationships) =
      IsClean-append (unique ++ labels ++ aliases.1) edges (valid-IsClean _ h) in
    let (both, snapshot) = IsClean-append (unique ++ labels) aliases.1 front in
    let (once, nodes) = IsClean-append unique labels both in
    record {
      once = λ ref. ground (
        arith,
        counter-occurrences empty (map (λ (w : NodeWrite). w.local_ref) (node_writes p)) ref,
        repeated-once _ _ ref once,
      );
      nodes = nodes-IsNodeWrite 0 (node_writes p) nodes;
      relationships = relationships-IsRelationshipWrite _ _ 0 _ relationships;
    }
