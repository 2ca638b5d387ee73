-- ===== src/Ingest/Execute.antt =====
-- ingestion/executor.py: `GraphWritePlanExecutor`. The graph service is a parameter; the references
-- and the graph are the state of a run, and what was written before an exception stays written.
pub mod Guards
pub mod Steps
pub mod Known
pub mod Written
use my_digital_brain.Base.{
  Exec, List, Result, Table, Text, [], codes, err, get, if◌then◌else◌, lift, ok, pure, put, raise,
  some_of, ℕ, ◌++◌, ◌+◌, ◌==◌, ◌>>=◌, ◌>>◌, ◌∷◌, not,
}
use my_digital_brain.Graph.Values.{Properties}
use my_digital_brain.Ingest.Plan.{
  NodeWrite, RelationshipWrite, Operation, Patch, PlanStatus, draft, validated, executed, failed,
  Metadata, Plan,
}
use my_digital_brain.Ingest.Plan
use my_digital_brain.Ingest.Targets.{
  Failure, uncaught, nested_path, Stored, resolve_ref, resolve_node_write_target, stored_id,
  without_id, appended, removed, validate_status, initial_ref_map, write_plan_has_mutations,
}
use my_digital_brain.Ingest.Issues.{Issue, issue}
use my_digital_brain.Ingest.Validate.{validate_write_plan}

-- The methods of the graph service, over the graph `G`.
pub record GraphService (G : Type 0) : Type 0 where
  pub upsert_node : Text → Properties → Exec G Failure Stored
  pub patch_node : Text → Properties → Exec G Failure Stored
  pub get_node : Text → Exec G Failure Stored
  pub upsert_relationship : Text → Text → Text → Properties → Exec G Failure Stored

-- `IngestionStatus`, as far as an execution sets it
pub data Status : Type 0 where
  validation_failed written failed_status : Status

-- `IngestionResult`, with the counts of the metadata in the order of the dictionary
pub record IngestionResult : Type 0 where
  pub source_id : Text
  pub status : Status
  pub write_plan : Plan
  pub validation_errors : List Issue
  pub counts : List ℕ
  pub ref_map : Table Text

-- The graph of a run, and its `ref_map`.
pub record Run (G : Type 0) : Type 0 where
  pub graph : G
  pub ref_map : Table Text

module _ {G : Type 0} where
  -- A call of the service.
  unfoldable pub on_graph : {A : Type 0} → Exec G Failure A → Exec (Run G) Failure A
  on_graph m r = ((m r.graph).0, record r { graph = (m r.graph).1 })

  -- What a pure part makes of the references.
  unfoldable pub with_refs : {A : Type 0} → (Table Text → Result Failure A) → Exec (Run G) Failure A
  with_refs f r = (f r.ref_map, r)

  -- `ref_map[ref] = id`
  unfoldable pub note_ref : Text → Text → Exec (Run G) Failure Unit
  note_ref ref id r = (ok tt, record r { ref_map = put r.ref_map ref id })

  -- The loops, which count their results.
  unfoldable pub each :
      {A : Type 0} → (A → Exec (Run G) Failure Stored) → List A → Exec (Run G) Failure ℕ
  each write [] = pure 0
  each write (w ∷ writes) = do write w; n ← each write writes; pure (n + 1)

-- The result of an execution that stops before the graph, or fails.
unfoldable pub not_written : Plan → Status → List Issue → IngestionResult
not_written p status issues = record {
  source_id = p.source_id;
  status = status;
  write_plan = p;
  validation_errors = issues;
  counts = [];
  ref_map = [];
}

-- The result of an execution that wrote the plan.
unfoldable pub result_of : Plan → List ℕ → Table Text → IngestionResult
result_of p counts ref_map = record {
  source_id = p.source_id;
  status = written;
  write_plan = record p { status = executed };
  validation_errors = [];
  counts = counts;
  ref_map = ref_map;
}

-- The `except` clause.
unfoldable pub caught : Plan → Result Failure IngestionResult → Result Failure IngestionResult
unfolding not_written issue
caught p (ok result) = ok result
caught p (err uncaught) = err uncaught
caught p (err _) = ok (
    not_written p failed_status
      (issue (codes "write_plan") (codes "write_plan_execution_failed") ∷ []))

module _ {G : Type 0} (service : GraphService G) where
  -- One round of `_execute_node_creates`.
  unfoldable pub create_node : NodeWrite → Exec (Run G) Failure Stored
  unfolding on_graph note_ref stored_id
  create_node w = do
    result ← on_graph (service.upsert_node w.label w.properties)
    id ← lift (stored_id result)
    note_ref w.local_ref id
    pure result

  -- One round of `_execute_node_updates`.
  unfoldable pub update_node : NodeWrite → Exec (Run G) Failure Stored
  unfolding on_graph with_refs note_ref stored_id resolve_node_write_target without_id
  update_node w = do
    target ← with_refs (resolve_node_write_target w)
    result ← on_graph (service.patch_node target (without_id w.properties))
    id ← lift (stored_id result)
    note_ref w.local_ref id
    pure result

  -- One round of `_execute_relationship_writes`.
  unfoldable pub write_relationship : RelationshipWrite → Exec (Run G) Failure Stored
  unfolding on_graph with_refs note_ref stored_id resolve_ref
  write_relationship w = do
    from_id ← with_refs (resolve_ref w.from_ref)
    to_id ← with_refs (resolve_ref w.to_ref)
    result ← on_graph (service.upsert_relationship w.relationship_type from_id to_id w.properties)
    id ← lift (stored_id result)
    note_ref w.local_ref id
    pure result

  -- `_metadata_patch_properties`; its last `raise` is for an operation that the model excludes.
  unfoldable pub metadata_patch_properties : Patch → Text → Exec (Run G) Failure Properties
  unfolding on_graph appended removed
  metadata_patch_properties p target = elim p.operation [
    | Plan.set ↦ pure ((p.path, p.value) ∷ [])
    | Plan.append ↦ do
      node ← on_graph (service.get_node target)
      pure ((p.path, appended (get node.properties p.path) p.value) ∷ [])
    | Plan.remove ↦ do
      node ← on_graph (service.get_node target)
      pure ((p.path, removed (get node.properties p.path) p.value) ∷ [])
  ]

  -- One round of `_execute_metadata_patches`.
  unfoldable pub patch_metadata : Patch → Exec (Run G) Failure Stored
  unfolding on_graph with_refs resolve_ref metadata_patch_properties
  patch_metadata p = if some_of (λ c. c == b'.') p.path then raise (nested_path p.path) else (do
    target ← with_refs (resolve_ref p.target_ref)
    properties ← metadata_patch_properties p target
    on_graph (service.patch_node target properties))

  -- The writes of a plan, in the order of `execute`; the counts are in the order of its metadata.
  unfoldable pub write_plan : Plan → Exec (Run G) Failure (List ℕ)
  unfolding each create_node update_node write_relationship patch_metadata
  write_plan p = do
    nodes ← each create_node p.nodes_to_create
    updates ← each update_node p.nodes_to_update
    claims ← each create_node p.claims_to_create
    perceptions ← each create_node p.perceptions_to_create
    contexts ← each create_node p.relationship_contexts_to_create
    logs ← each create_node p.memory_logs_to_create
    memories ← each create_node p.profile_memories_to_create
    patches ← each patch_metadata p.metadata_patches
    relationships ← each write_relationship (p.relationships_to_create ++ p.relationships_to_update)
    pure (
        nodes ∷ updates ∷ claims ∷ perceptions ∷ contexts ∷ logs ∷ memories ∷ patches
        ∷ relationships ∷ [])

  -- The writes, from the references of the plan.
  unfoldable pub execute_writes : Plan → Table Text → Exec G Failure IngestionResult
  unfolding write_plan result_of
  execute_writes p ref_map graph =
      let done = write_plan p (record { graph = graph; ref_map = ref_map }) in
      elim done.0 [
        | err error ↦ (err error, done.1.graph)
        | ok counts ↦ (ok (result_of p counts done.1.ref_map), done.1.graph)
      ]

  -- The body of the `try`.
  unfoldable pub execute_checked : Plan → Exec G Failure IngestionResult
  unfolding validate_status validate_write_plan not_written write_plan_has_mutations initial_ref_map
      execute_writes
  execute_checked p graph = elim (validate_status p.status) [
    | err error ↦ (err error, graph)
    | ok _ ↦
        if not (validate_write_plan p).is_valid
        then (ok (not_written p validation_failed (validate_write_plan p).issues), graph)
        else if not (write_plan_has_mutations p)
        then (
          ok (
              not_written p validation_failed
                (issue (codes "write_plan") (codes "empty_write_plan") ∷ [])),
          graph,
        )
        else elim (initial_ref_map p.metadata) [
          | err error ↦ (err error, graph)
          | ok ref_map ↦ execute_writes p ref_map graph
        ]
  ]

  -- `execute`
  unfoldable pub execute : Plan → Exec G Failure IngestionResult
  unfolding execute_checked caught
  execute p graph = let done = execute_checked p graph in (caught p done.0, done.1)
