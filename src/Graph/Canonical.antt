-- ===== src/Graph/Canonical.antt =====
-- graph/merge_service.py: `GraphMergeService.get_canonical_node` and `_validate_merge_nodes`, over
-- the reads of a graph.
pub mod Chain
use my_digital_brain.Base.{
  Bool, List, Option, Result, Text, [], elem, err, false, holds, if◌then◌else◌, none, ok, some,
  some_of, suc, text_discrete, true, zero, ℕ, ◌||◌, ◌∷◌, not,
}
use my_digital_brain.Graph.Values.{Properties}

-- `NodeSearchResult`
pub record Node : Type 0 where
  pub label : Text
  pub properties : Properties

-- The errors of the two methods; `out_of_fuel` is the model's own.
pub data MergeError : Type 0 where
  not_found : Text → MergeError
  cycle : Text → MergeError
  several : Text → MergeError
  nothing_to_merge canonical_is_merged duplicate_ids other_label : MergeError
  out_of_fuel : MergeError

-- What the methods read: `get_node`, and the targets of the outgoing `MERGED_INTO` relationships,
-- two at most.
pub record MergeReads : Type 0 where
  pub node : Text → Option Node
  pub merged_into : Text → List Text

-- The loop of `get_canonical_node`, on fuel.
unfoldable pub follow : MergeReads → ℕ → List Text → Text → Result MergeError Node
follow g zero seen id = err out_of_fuel
follow g (suc fuel) seen id = elim (elem text_discrete id seen) [
  | true ↦ err (cycle id)
  | false ↦ elim (g.node id) [
    | none ↦ err (not_found id)
    | some node ↦ elim (g.merged_into id) [
      | [] ↦ ok node
      | next ∷ [] ↦ follow g fuel (id ∷ seen) next
      | next ∷ other ∷ _ ↦ err (several id)
    ]
  ]
]

-- `get_canonical_node`
unfoldable pub get_canonical_node : MergeReads → ℕ → Text → Result MergeError Node
get_canonical_node g fuel id = follow g fuel [] id

-- `get_node` for each id
unfoldable pub get_nodes : MergeReads → List Text → Result MergeError (List Node)
get_nodes g [] = ok []
get_nodes g (id ∷ ids) = elim (g.node id) [
  | none ↦ err (not_found id)
  | some node ↦ elim (get_nodes g ids) [ err error ↦ err error | ok nodes ↦ ok (node ∷ nodes) ]
]

-- `len(set(ids)) != len(ids)`
unfoldable pub has_duplicates : List Text → Bool
has_duplicates [] = false
has_duplicates (id ∷ ids) = elem text_discrete id ids || has_duplicates ids

-- `_validate_merge_nodes`
unfoldable pub validate_merge_nodes :
    MergeReads → Text → List Text → Result MergeError (Node × List Node)
validate_merge_nodes g canonical_id [] = err nothing_to_merge
validate_merge_nodes g canonical_id (first ∷ others) =
    let ids = first ∷ others in
    if elem text_discrete canonical_id ids
    then err canonical_is_merged
    else if has_duplicates ids
    then err duplicate_ids
    else elim (g.node canonical_id) [
      | none ↦ err (not_found canonical_id)
      | some canonical ↦ elim (get_nodes g ids) [
        | err error ↦ err error
        | ok nodes ↦
            if some_of (λ (n : Node). not (holds (text_discrete n.label canonical.label))) nodes
            then err other_label
            else ok (canonical, nodes)
      ]
    ]
