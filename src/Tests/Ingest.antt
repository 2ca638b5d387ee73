-- ===== src/Tests/Ingest.antt =====
-- The execution of plans at concrete inputs.
use my_digital_brain.Graph.Labels.{validate_node_label, validate_relationship_type}
use my_digital_brain.Graph.Values.{
  Properties, add_value, contains, flag_number, is_true, same_value, text, without,
}
use my_digital_brain.Ingest.Execute.{
  GraphService, IngestionResult, caught, create_node, each, execute, execute_checked,
  execute_writes, failed_status, metadata_patch_properties, not_written, note_ref, on_graph,
  patch_metadata, result_of, update_node, validation_failed, with_refs, write_plan,
  write_relationship, written,
}
use my_digital_brain.Ingest.Execute.Guards.{IsReady, execute-again, execute-guarded}
use my_digital_brain.Ingest.Issues.{
  counter, from_issues, indexed, is_candidate_ref, is_error, issue, repeated_issues, when,
}
use my_digital_brain.Ingest.Plan.{
  NodeWrite, Patch, Plan, PlanStatus, RelationshipWrite, append, draft,
}
use my_digital_brain.Ingest.Targets.{
  Failure, Stored, appended, implied_target, initial_ref_map, own_id, removed,
  resolve_node_write_target, resolve_ref, stored_id, validate_status, values_of, without_id,
  write_plan_has_mutations,
}
use my_digital_brain.Ingest.Validate.{
  is_owner, is_person, local_refs, node_issues, node_writes, owner_alias_map, raised,
  relationship_issue, relationship_issues, validate_label, validate_owner_properties, validate_type,
  validate_write_endpoint, validate_write_plan, validate_write_ref_uniqueness,
}
use my_digital_brain.Ingest.Validate.WellFormed.{IsWellFormed, validate_write_plan-IsWellFormed}
use my_digital_brain.References.Registry.Read.{update}
use my_digital_brain.Base.{
  Exec, Text, [], codes, decimal, decimal_fuel, get, insert, lookup, none, ok, put, refl, some,
  starts_with, text_discrete, true, ℕ, ℕ_discrete, ◌∷◌, ◌≡◌, ◌≢◌, ◌+◌, ◌⊎◌,
}
use my_digital_brain.Ingest.Plan

-- A service that numbers what it stores.
abbrev stored : Text → Properties → Exec ℕ Failure Stored
stored id ps g = (ok (record { id = some id; properties = ps }), g + 1)

abbrev memory : GraphService ℕ
memory = record {
  upsert_node = λ label ps. stored (codes "n1") ps;
  patch_node = λ id ps. stored id ps;
  get_node = λ id. stored id [];
  upsert_relationship = λ type from_id to_id ps. stored (codes "r1") ps;
}

abbrev anna : NodeWrite
anna = record {
  local_ref = codes "CANDIDATE_PERSON_001";
  label = codes "Person";
  target_ref = none;
  properties = (codes "name", text (codes "Anna")) ∷ [];
}

abbrev bruno : NodeWrite
bruno = record {
  local_ref = codes "WRITE_1";
  label = codes "Person";
  target_ref = some (codes "NODE_000001");
  properties = (codes "city", text (codes "Rome")) ∷ [];
}

abbrev knows : RelationshipWrite
knows = record {
  local_ref = codes "REL_1";
  relationship_type = codes "KNOWS";
  from_ref = codes "CANDIDATE_PERSON_001";
  to_ref = codes "NODE_000001";
  properties = [];
}

abbrev likes : Patch
likes = record {
  target_ref = codes "NODE_000001";
  operation = Plan.append;
  path = codes "aliases";
  value = text (codes "Bru");
}

abbrev empty_plan : PlanStatus → Plan
empty_plan status = record {
  source_id = codes "s";
  status = status;
  nodes_to_create = [];
  nodes_to_update = [];
  relationships_to_create = [];
  relationships_to_update = [];
  claims_to_create = [];
  perceptions_to_create = [];
  relationship_contexts_to_create = [];
  memory_logs_to_create = [];
  profile_memories_to_create = [];
  metadata_patches = [];
  metadata = record {
    alias_map = (codes "NODE_000001", codes "p1") ∷ [];
    local_ref_resolution = [];
    reference_registry_snapshot = none;
  };
}

abbrev small : Plan
small = record (empty_plan draft) {
  nodes_to_create = anna ∷ [];
  nodes_to_update = bruno ∷ [];
  relationships_to_create = knows ∷ [];
  metadata_patches = likes ∷ [];
}

small-valid : (validate_write_plan small).is_valid ≡ true
unfolding validate_write_plan node_writes local_refs validate_write_ref_uniqueness counter
    repeated_issues node_issues validate_label raised validate_node_label when issue is_error
    from_issues indexed decimal decimal_fuel validate_owner_properties is_person is_true
    validate_type validate_relationship_type validate_write_endpoint is_candidate_ref starts_with
    is_owner relationship_issue relationship_issues owner_alias_map get put lookup insert
    text_discrete ℕ_discrete
small-valid = refl

validate_write_plan-IsWellFormed_example : IsWellFormed small
validate_write_plan-IsWellFormed_example = validate_write_plan-IsWellFormed small small-valid

small-IsReady : IsReady small
unfolding validate_status write_plan_has_mutations
small-IsReady = record { status = refl; valid = small-valid; mutates = refl }

abbrev outcome : IngestionResult
outcome = result_of small (1 ∷ 1 ∷ 0 ∷ 0 ∷ 0 ∷ 0 ∷ 0 ∷ 1 ∷ 1 ∷ []) (
    (codes "NODE_000001", codes "p1")
    ∷ (codes "CANDIDATE_PERSON_001", codes "n1")
    ∷ (codes "WRITE_1", codes "p1")
    ∷ (codes "REL_1", codes "r1")
    ∷ [])

runs : execute memory small 0 ≡ (ok outcome, 5)
unfolding validate_write_plan node_writes local_refs validate_write_ref_uniqueness counter
    repeated_issues node_issues validate_label raised validate_node_label when issue is_error
    from_issues indexed decimal decimal_fuel validate_owner_properties is_person is_true
    validate_type validate_relationship_type validate_write_endpoint is_candidate_ref starts_with
    is_owner relationship_issue relationship_issues owner_alias_map get put lookup insert
    text_discrete ℕ_discrete execute execute_checked execute_writes caught not_written result_of
    validate_status write_plan_has_mutations initial_ref_map update write_plan each create_node
    update_node write_relationship patch_metadata metadata_patch_properties on_graph with_refs
    note_ref stored_id resolve_node_write_target implied_target own_id resolve_ref without_id
    appended removed values_of contains add_value without same_value flag_number
runs = refl

outcome-written : outcome.status ≡ written
unfolding result_of
outcome-written = refl

execute-again_example : execute memory outcome.write_plan 5 ≡ (
  ok (
      not_written outcome.write_plan failed_status
        (issue (codes "write_plan") (codes "write_plan_execution_failed") ∷ [])),
  5,
)
execute-again_example = execute-again memory small 0 5 5 outcome runs outcome-written

abbrev idle : Plan
idle = empty_plan draft

abbrev start : ℕ
start = 0

abbrev refused : IngestionResult
refused =
    not_written idle validation_failed (issue (codes "write_plan") (codes "empty_write_plan") ∷ [])

idles : execute memory idle 0 ≡ (ok refused, 0)
unfolding validate_write_plan node_writes local_refs validate_write_ref_uniqueness counter
    repeated_issues node_issues validate_label raised validate_node_label when issue is_error
    from_issues indexed decimal decimal_fuel validate_owner_properties is_person is_true
    validate_type validate_relationship_type validate_write_endpoint is_candidate_ref starts_with
    is_owner relationship_issue relationship_issues owner_alias_map get put lookup insert
    text_discrete ℕ_discrete execute execute_checked execute_writes caught not_written result_of
    validate_status write_plan_has_mutations initial_ref_map update write_plan each create_node
    update_node write_relationship patch_metadata metadata_patch_properties on_graph with_refs
    note_ref stored_id resolve_node_write_target implied_target own_id resolve_ref without_id
    appended removed values_of contains add_value without same_value flag_number
idles = refl

execute-guarded_example : IsReady idle ⊎ ((start ≡ start) × (refused.status ≢ written))
execute-guarded_example = execute-guarded memory idle start start refused idles
