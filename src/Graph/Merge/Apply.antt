-- ===== src/Graph/Merge/Apply.antt =====
-- graph/merge_service.py: `apply_merge`, its reads and its writes.
use my_digital_brain.Base.{
  Exec, List, Result, Text, [], codes, err, lift, none, ok, pure, some, ◌>>=◌, ◌>>◌, ◌∷◌,
}
use my_digital_brain.Graph.Values.{text, Properties}
use my_digital_brain.Graph.Canonical.{Node, MergeReads, not_found, validate_merge_nodes}
use my_digital_brain.Graph.Merge.{
  RecordError, merge_error, malformed_record, MergeServices, safe_merge_patch, previous_values,
  change_record, canonical_id_of, merged_ids_of, check_record, value_at,
}

-- What `apply_merge` reads before it writes.
pub record Mergeable : Type 0 where
  pub merge : Node
  pub canonical_id : Text
  pub canonical : Node
  pub nodes : List Node

-- `writer.get_node`
unfoldable pub read_node : MergeReads → Text → Result RecordError Node
read_node g id = elim (g.node id) [ none ↦ err (merge_error (not_found id)) | some n ↦ ok n ]

unfoldable pub checked_nodes : MergeReads → Text → List Text → Result RecordError (Node × List Node)
checked_nodes g canonical_id ids = elim (validate_merge_nodes g canonical_id ids) [
  | err error ↦ err (merge_error error)
  | ok nodes ↦ ok nodes
]

-- The reads and checks of `apply_merge`.
unfoldable pub mergeable : MergeReads → Text → Result RecordError Mergeable
mergeable g merge_id = elim (read_node g merge_id) [
  | err error ↦ err error
  | ok merge ↦ elim (check_record merge) [
    | err error ↦ err error
    | ok _ ↦ elim (canonical_id_of merge) [
      | err error ↦ err error
      | ok canonical_id ↦ elim (merged_ids_of merge) [
        | err error ↦ err error
        | ok ids ↦ elim (checked_nodes g canonical_id ids) [
          | err error ↦ err error
          | ok (canonical, nodes) ↦ ok (record {
            merge = merge;
            canonical_id = canonical_id;
            canonical = canonical;
            nodes = nodes;
          })
        ]
      ]
    ]
  ]
]

-- `node.properties["id"]`
unfoldable pub id_of : Node → Result RecordError Text
id_of n = elim (value_at (codes "id") n.properties) [ text s ↦ ok s | _ ↦ err malformed_record ]

module _ {G : Type 0} (services : MergeServices G) where
  -- The loop over the merged nodes that links them.
  unfoldable pub link_nodes : Text → Text → List Node → Exec G RecordError Unit
  link_nodes merge_id canonical_id [] = pure tt
  link_nodes merge_id canonical_id (n ∷ nodes) = do
    id ← lift (id_of n)
    services.upsert_relationship (codes "MERGED_NODE") merge_id id
    services.upsert_relationship (codes "MERGED_INTO") id canonical_id
    link_nodes merge_id canonical_id nodes

  -- The patch of the canonical node, if there is one.
  unfoldable pub patch_canonical : Mergeable → Properties → Exec G RecordError Unit
  patch_canonical m [] = pure tt
  patch_canonical m (field ∷ patch) = do
    services.patch_node m.canonical_id (field ∷ patch)
    services.create_change_record (
        change_record m.merge m.canonical_id m.canonical.label (codes "merge_safe_fields")
          (previous_values m.canonical (field ∷ patch)) (field ∷ patch))

  -- The loop over the merged nodes that archives them.
  unfoldable pub archive_nodes : Mergeable → List Node → Exec G RecordError Unit
  archive_nodes m [] = pure tt
  archive_nodes m (n ∷ nodes) =
      let patch : Properties =
        (codes "lifecycle_state", text (codes "archived"))
        ∷ (codes "merged_into_id", text m.canonical_id)
        ∷ [] in
      (do
        id ← lift (id_of n)
        services.patch_node id patch
        services.create_change_record (
            change_record m.merge id n.label (codes "merge_archive")
              ((codes "lifecycle_state", value_at (codes "lifecycle_state") n.properties)
                ∷ (codes "merged_into_id", value_at (codes "merged_into_id") n.properties)
                ∷ [])
              patch)
        archive_nodes m nodes)

  -- The writes of `apply_merge`, at the time `now`.
  unfoldable pub write_merge : Text → Text → Mergeable → Exec G RecordError Node
  write_merge now merge_id m = do
    services.upsert_relationship (codes "CANONICAL_NODE") merge_id m.canonical_id
    link_nodes merge_id m.canonical_id m.nodes
    patch ← lift (safe_merge_patch m.canonical m.nodes)
    patch_canonical m patch
    archive_nodes m m.nodes
    services.patch_node merge_id
        ((codes "status", text (codes "applied")) ∷ (codes "merged_at", text now) ∷ [])

  -- `apply_merge`
  unfoldable pub apply_merge : Text → Text → Exec G RecordError Node
  apply_merge now merge_id graph = elim (mergeable (services.reads graph) merge_id) [
    | err error ↦ (err error, graph)
    | ok m ↦ write_merge now merge_id m graph
  ]
