-- ===== src/Ingest/Targets.antt =====
-- ingestion/executor.py: what `GraphWritePlanExecutor` computes beside the writes, its references
-- and the values of patches.
use my_digital_brain.Base.{
  Bool, Option, Result, Table, Text, [], codes, err, get, holds, if◌then◌else◌, length, ltb, none,
  ok, some, text_discrete, values, ◌||◌, ◌∷◌,
}
use my_digital_brain.References.Registry.Read.{from_snapshot, backend_alias_map, update}
use my_digital_brain.Graph.Values.{
  Value, null, text, many, Values, nil, cons, Properties, contains, add_value, without,
}
use my_digital_brain.Ingest.Plan.{NodeWrite, PlanStatus, executed, failed, Metadata, Plan}
use my_digital_brain.Ingest.Issues.{is_candidate_ref}

-- The exceptions of an execution: `GraphError`, `IngestionValidationError`, `ValueError`, and those
-- that `execute` does not catch, such as the `KeyError` of a result without an id.
pub data Failure : Type 0 where
  graph_error : Text → Failure
  already_executed must_be_rebuilt : Failure
  nested_path : Text → Failure
  no_target : Text → Failure
  unresolved : Text → Failure
  value_error : Failure
  uncaught : Failure

-- What the service returns of a node or a relationship: the `id` of its properties, and the others.
pub record Stored : Type 0 where
  pub id : Option Text
  pub properties : Properties

-- `_resolve_ref`
unfoldable pub resolve_ref : Text → Table Text → Result Failure Text
unfolding is_candidate_ref
resolve_ref ref ref_map = elim (get ref_map ref) [
  | some id ↦ ok id
  | none ↦ if is_candidate_ref ref then err (unresolved ref) else ok ref
]

-- The id among the properties, if it is a text and not empty.
unfoldable pub own_id : NodeWrite → Result Failure Text
own_id w = elim (get w.properties (codes "id")) [
  | some (text (c ∷ s)) ↦ ok (c ∷ s)
  | _ ↦ err (no_target w.local_ref)
]

-- The part of `_resolve_node_write_target` for a write without a target.
unfoldable pub implied_target : NodeWrite → Table Text → Result Failure Text
unfolding own_id
implied_target w ref_map = elim (get ref_map w.local_ref) [ some id ↦ ok id | none ↦ own_id w ]

-- `_resolve_node_write_target`
unfoldable pub resolve_node_write_target : NodeWrite → Table Text → Result Failure Text
unfolding resolve_ref implied_target
resolve_node_write_target w ref_map = elim w.target_ref [
  | some (c ∷ s) ↦ resolve_ref (c ∷ s) ref_map
  | some [] ↦ implied_target w ref_map
  | none ↦ implied_target w ref_map
]

-- `result.properties["id"]`
unfoldable pub stored_id : Stored → Result Failure Text
stored_id r = elim r.id [ none ↦ err uncaught | some id ↦ ok id ]

-- `{key: value for key, value in properties.items() if key != "id"}`
unfoldable pub without_id : Properties → Properties
without_id [] = []
without_id ((key, v) ∷ properties) =
    let rest = without_id properties in
    if holds (text_discrete key (codes "id")) then rest else (key, v) ∷ rest

-- The values that `append` starts from.
unfoldable pub values_of : Option Value → Values
values_of none = nil
values_of (some null) = nil
values_of (some (many values)) = values
values_of (some current) = cons current nil

-- The new value of a patched property.
unfoldable pub appended : Option Value → Value → Value
unfolding values_of contains add_value
appended current v =
    let values = values_of current in
    many (if contains v values then values else add_value values v)

unfoldable pub removed : Option Value → Value → Value
unfolding without
removed (some (many values)) v = many (without v values)
removed _ v = null

-- `_validate_status`
unfoldable pub validate_status : PlanStatus → Result Failure Unit
validate_status executed = err already_executed
validate_status failed = err must_be_rebuilt
validate_status _ = ok tt

-- `_initial_ref_map`
unfoldable pub initial_ref_map : Metadata → Result Failure (Table Text)
unfolding from_snapshot backend_alias_map update
initial_ref_map metadata = elim metadata.reference_registry_snapshot [
  | none ↦ ok (update metadata.alias_map metadata.local_ref_resolution)
  | some snapshot ↦ elim (from_snapshot snapshot none none) [
    | err error ↦ err value_error
    | ok registry ↦ ok (update (backend_alias_map registry) metadata.local_ref_resolution)
  ]
]

-- `_write_plan_has_mutations`
unfoldable pub write_plan_has_mutations : Plan → Bool
write_plan_has_mutations p =
    ltb 0 (length p.nodes_to_create)
    || ltb 0 (length p.nodes_to_update)
    || ltb 0 (length p.relationships_to_create)
    || ltb 0 (length p.relationships_to_update)
    || ltb 0 (length p.claims_to_create)
    || ltb 0 (length p.perceptions_to_create)
    || ltb 0 (length p.relationship_contexts_to_create)
    || ltb 0 (length p.memory_logs_to_create)
    || ltb 0 (length p.profile_memories_to_create)
    || ltb 0 (length p.metadata_patches)
