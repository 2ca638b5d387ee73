-- ===== src/Graph/Merge/Records.antt =====
-- graph/merge_service.py: `create_merge_record` and `update_merge_record`.
use my_digital_brain.Base.{
  Exec, List, Result, Text, [], codes, elem, err, holds, if◌then◌else◌, lift, ok, text_discrete,
  ◌>>=◌, ◌∷◌, not,
}
use my_digital_brain.Graph.Values.{Value, null, text, many, Values, nil, cons, Properties}
use my_digital_brain.Graph.Canonical.{Node}
use my_digital_brain.Graph.Merge.{
  RecordError, not_a_merge_record, unsupported_status, apply_endpoint_required, MergeServices,
  value_at,
}
use my_digital_brain.Graph.Merge.Apply.{read_node, checked_nodes, id_of}

-- What the caller says of a merge.
pub record MergeDetails : Type 0 where
  pub reason : Value
  pub performed_by : Text
  pub source_ids : Values
  pub extraction_run_ids : Values
  pub metadata : Value

-- `[node.properties["id"] for node in nodes]`
unfoldable pub ids_of : List Node → Result RecordError Values
ids_of [] = ok nil
ids_of (n ∷ nodes) = elim (id_of n) [
  | err error ↦ err error
  | ok id ↦ elim (ids_of nodes) [ err error ↦ err error | ok ids ↦ ok (cons (text id) ids) ]
]

-- `merge_properties`
unfoldable pub merge_properties : Text → Values → MergeDetails → Properties
merge_properties canonical_id ids d =
    (codes "canonical_node_id", text canonical_id)
    ∷ (codes "merged_node_ids", many ids)
    ∷ (codes "reason", d.reason)
    ∷ (codes "performed_by", text d.performed_by)
    ∷ (codes "status", text (codes "proposed"))
    ∷ (codes "source_ids", many d.source_ids)
    ∷ (codes "extraction_run_ids", many d.extraction_run_ids)
    ∷ (codes "metadata", d.metadata)
    ∷ []

abbrev pub merge_statuses : List Text
merge_statuses =
    codes "proposed" ∷ codes "applied" ∷ codes "rejected" ∷ codes "archived" ∷ codes "reverted" ∷ []

-- The check of a status that an update gives.
unfoldable pub check_status : Value → Result RecordError Unit
check_status null = ok tt
check_status (text s) =
    if not (elem text_discrete s merge_statuses)
    then err unsupported_status
    else if holds (text_discrete s (codes "applied"))
    then err apply_endpoint_required
    else ok tt
check_status _ = err unsupported_status

module _ {G : Type 0} (services : MergeServices G) where
  -- `create_merge_record`
  unfoldable pub create_merge_record : Text → List Text → MergeDetails → Exec G RecordError Node
  create_merge_record canonical_id merged_ids d graph =
      (do
        nodes ← lift (checked_nodes (services.reads graph) canonical_id merged_ids)
        id ← lift (id_of nodes.0)
        ids ← lift (ids_of nodes.1)
        services.upsert_node (codes "MergeRecord") (merge_properties id ids d))
        graph

  -- `update_merge_record`
  unfoldable pub update_merge_record : Text → Properties → Exec G RecordError Node
  update_merge_record merge_id properties graph = elim (read_node (services.reads graph) merge_id) [
    | err error ↦ (err error, graph)
    | ok existing ↦
        if not (holds (text_discrete existing.label (codes "MergeRecord")))
        then (err not_a_merge_record, graph)
        else elim (check_status (value_at (codes "status") properties)) [
          | err error ↦ (err error, graph)
          | ok _ ↦ services.patch_node merge_id properties graph
        ]
  ]
