-- ===== src/Graph/Merge/Guards.antt =====
-- When `apply_merge` writes, and that it writes once.
use mathlib.Core.Path.{subst}
use my_digital_brain.Base.{
  Bool-cases, Exec, List, Option-cases, Result-cases, Text, [], arith, bind-ok, codes, elem, err,
  false, get, holds, inl, inr, lift, lookup, ok, refl, some, some_of, text_discrete, true,
  ℕ_discrete, ◌>>=◌, ◌>>◌, ◌∷◌, ◌≡◌, ◌≢◌, ◌⊎◌, not,
}
use my_digital_brain.Graph.Values.{text, Properties}
use my_digital_brain.Graph.Canonical.{
  Node, MergeReads, not_found, get_nodes, has_duplicates, validate_merge_nodes,
}
use my_digital_brain.Graph.Merge.{
  RecordError, merge_error, MergeServices, safe_merge_patch, canonical_id_of, merged_ids_of,
  check_record, value_at, is_text, not_a_merge_record, already_applied,
}
use my_digital_brain.Graph.Merge.Apply.{
  link_nodes, patch_canonical, archive_nodes, Mergeable, read_node, checked_nodes, mergeable,
  write_merge, apply_merge,
}

-- The nodes that a list of ids stands for.
pub data Stand (g : MergeReads) : List Text → List Node → Type 0 where
  none_left : Stand g [] []
  and_then :
      {id : Text} {ids : List Text} {n : Node} {nodes : List Node}
      → g.node id ≡ some n
      → Stand g ids nodes
      → Stand g (id ∷ ids) (n ∷ nodes)

get_nodes-Stand :
    (g : MergeReads) (ids : List Text) (nodes : List Node)
    → get_nodes g ids ≡ ok nodes
    → Stand g ids nodes
unfolding get_nodes
get_nodes-Stand g [] nodes h = subst (Stand g []) (ground arith) none_left
get_nodes-Stand g (id ∷ ids) nodes h = elim (Option-cases (g.node id)) [
  | inl absent ↦ absurd (ground arith)
  | inr (n, at) ↦ elim (Result-cases (get_nodes g ids)) [
    | inr (error, r) ↦ absurd (ground arith)
    | inl (rest, r) ↦
        subst (Stand g (id ∷ ids)) (ground (arith, at, r))
          (and_then at (get_nodes-Stand g ids rest r))
  ]
]

-- The nodes of a merge: one or more other nodes of the graph, each once, of the canonical node's
-- label.
pub record AreMergeable (g : MergeReads) (canonical_id : Text) (ids : List Text) (canonical : Node)
    (nodes : List Node) : Type 0 where
  pub canonical_at : g.node canonical_id ≡ some canonical
  pub stand : Stand g ids nodes
  pub some_ids : ids ≢ []
  pub not_canonical : elem text_discrete canonical_id ids ≡ false
  pub once : has_duplicates ids ≡ false
  pub same_label :
      some_of (λ (n : Node). not (holds (text_discrete n.label canonical.label))) nodes ≡ false

validate_merge_nodes-AreMergeable :
    (g : MergeReads) (canonical_id : Text) (ids : List Text) (canonical : Node) (nodes : List Node)
    → validate_merge_nodes g canonical_id ids ≡ ok (canonical, nodes)
    → AreMergeable g canonical_id ids canonical nodes
unfolding validate_merge_nodes
validate_merge_nodes-AreMergeable g canonical_id [] canonical nodes h = absurd (ground arith)
validate_merge_nodes-AreMergeable g canonical_id (first ∷ others) canonical nodes h =
    elim (Bool-cases (elem text_discrete canonical_id (first ∷ others))) [
      | inl among ↦ absurd (ground arith)
      | inr apart ↦ elim (Bool-cases (has_duplicates (first ∷ others))) [
        | inl twice ↦ absurd (ground arith)
        | inr once ↦ elim (Option-cases (g.node canonical_id)) [
          | inl absent ↦ absurd (ground arith)
          | inr (c, at) ↦ elim (Result-cases (get_nodes g (first ∷ others))) [
            | inr (error, r) ↦ absurd (ground arith)
            | inl (found, r) ↦ record {
              canonical_at = ground arith;
              stand = get_nodes-Stand g (first ∷ others) nodes (ground arith);
              some_ids = λ empty_ids. absurd (ground arith);
              not_canonical = apart;
              once = once;
              same_label = ground arith;
            }
          ]
        ]
      ]
    ]

-- A proposed merge record that names nodes that may be merged.
pub record IsApplicable (g : MergeReads) (merge_id : Text) (m : Mergeable) : Type 0 where
  pub ids : List Text
  pub merge_at : g.node merge_id ≡ some m.merge
  pub record_label : m.merge.label ≡ codes "MergeRecord"
  pub is_proposed : is_text (value_at (codes "status") m.merge.properties) (codes "proposed") ≡ true
  pub ids_at : merged_ids_of m.merge ≡ ok ids
  pub canonical_at : canonical_id_of m.merge ≡ ok m.canonical_id
  pub nodes : AreMergeable g m.canonical_id ids m.canonical m.nodes

check_record-ok :
    (merge : Node)
    → check_record merge ≡ ok tt
    → (merge.label ≡ codes "MergeRecord")
      × (is_text (value_at (codes "status") merge.properties) (codes "proposed") ≡ true)
unfolding check_record
check_record-ok merge h = elim (text_discrete merge.label (codes "MergeRecord")) [
  | no other ↦ absurd (ground (arith, other))
  | yes same ↦ (same, ground (arith, same))
]

read_node-ok : (g : MergeReads) (id : Text) (n : Node) → read_node g id ≡ ok n → g.node id ≡ some n
unfolding read_node
read_node-ok g id n h = elim (Option-cases (g.node id)) [
  | inl absent ↦ absurd (ground arith)
  | inr (m, at) ↦ ground arith
]

checked_nodes-ok :
    (g : MergeReads) (id : Text) (ids : List Text) (nodes : Node × List Node)
    → checked_nodes g id ids ≡ ok nodes
    → validate_merge_nodes g id ids ≡ ok nodes
unfolding checked_nodes
checked_nodes-ok g id ids nodes h = elim (Result-cases (validate_merge_nodes g id ids)) [
  | inr (error, r) ↦ absurd (ground arith)
  | inl (found, r) ↦ ground arith
]

mergeable-IsApplicable :
    (g : MergeReads) (merge_id : Text) (m : Mergeable)
    → mergeable g merge_id ≡ ok m
    → IsApplicable g merge_id m
unfolding mergeable
mergeable-IsApplicable g merge_id m h = elim (Result-cases (read_node g merge_id)) [
  | inr (error, r) ↦ absurd (ground arith)
  | inl (merge, r) ↦ elim (Result-cases (check_record merge)) [
    | inr (error, c) ↦ absurd (ground arith)
    | inl (u, c) ↦ elim (Result-cases (canonical_id_of merge)) [
      | inr (error, k) ↦ absurd (ground arith)
      | inl (canonical_id, k) ↦ elim (Result-cases (merged_ids_of merge)) [
        | inr (error, i) ↦ absurd (ground arith)
        | inl (ids, i) ↦ elim (Result-cases (checked_nodes g canonical_id ids)) [
          | inr (error, n) ↦ absurd (ground arith)
          | inl ((canonical, nodes), n) ↦
              let (labelled, is_proposed) = check_record-ok merge c in
              subst (IsApplicable g merge_id) (ground (arith, r, c, k, i, n)) (record {
                ids = ids;
                merge_at = read_node-ok g merge_id merge r;
                record_label = labelled;
                is_proposed = is_proposed;
                ids_at = i;
                canonical_at = k;
                nodes =
                    validate_merge_nodes-AreMergeable g canonical_id ids canonical nodes
                      (checked_nodes-ok g canonical_id ids (canonical, nodes) n);
              })
        ]
      ]
    ]
  ]
]

-- Either the record is a proposed merge of one or more other nodes, each named once, that exist and
-- have the canonical node's label, and the merge is written; or an exception is raised and the graph
-- is left.
pub apply_merge-guarded :
    {G : Type 0} (services : MergeServices G) (now merge_id : Text) (graph : G)
    → ((m : Mergeable) × IsApplicable (services.reads graph) merge_id m
        × (apply_merge services now merge_id graph ≡ write_merge services now merge_id m graph))
      ⊎ ((error : RecordError) × (apply_merge services now merge_id graph ≡ (err error, graph)))
unfolding apply_merge
apply_merge-guarded services now merge_id graph =
    elim (Result-cases (mergeable (services.reads graph) merge_id)) [
      | inl (m, h) ↦
          inl (
            m,
            mergeable-IsApplicable (services.reads graph) merge_id m h,
            rw (h, apply_merge) refl,
          )
      | inr (error, h) ↦ inr (error, rw (h, apply_merge) refl)
    ]

-- The writer stores a status that it patches, a text: a node that is read afterwards under the id has
-- it. Of the other properties nothing is asked.
pub record StoresStatus {G : Type 0} (services : MergeServices G) : Type 0 where
  pub at :
      (id status : Text) (patch : Properties) (graph graph' : G) (n m : Node)
      → services.patch_node id patch graph ≡ (ok n, graph')
      → (services.reads graph').node id ≡ some m
      → get patch (codes "status") ≡ some (text status)
      → get m.properties (codes "status") ≡ some (text status)

-- The last write of a merge sets the status.
last_write :
    {G : Type 0} (services : MergeServices G) (now merge_id : Text) (m : Mergeable)
    (graph graph' : G) (n : Node)
    → write_merge services now merge_id m graph ≡ (ok n, graph')
    → (before : G) × (services.patch_node merge_id
          ((codes "status", text (codes "applied")) ∷ (codes "merged_at", text now) ∷ [])
          before
        ≡ (ok n, graph'))
unfolding write_merge
last_write {G} services now merge_id m graph graph' n h =
    let close : Exec G RecordError Node =
      services.patch_node merge_id
        ((codes "status", text (codes "applied")) ∷ (codes "merged_at", text now) ∷ []) in
    let archive : Exec G RecordError Node = archive_nodes services m m.nodes >> close in
    let patched : Properties → Exec G RecordError Node =
      λ patch. patch_canonical services m patch >> archive in
    let safe : Exec G RecordError Properties = lift (safe_merge_patch m.canonical m.nodes) in
    let linked : Exec G RecordError Node =
      link_nodes services merge_id m.canonical_id m.nodes >> (safe >>= patched) in
    let (u1, g1, s1, h1) =
      bind-ok (services.upsert_relationship (codes "CANONICAL_NODE") merge_id m.canonical_id)
        (λ _. linked) graph n graph' h in
    let (u2, g2, s2, h2) =
      bind-ok (link_nodes services merge_id m.canonical_id m.nodes) (λ _. safe >>= patched) g1 n
        graph' h1 in
    let (patch, g3, s3, h3) = bind-ok safe patched g2 n graph' h2 in
    let (u4, g4, s4, h4) =
      bind-ok (patch_canonical services m patch) (λ _. archive) g3 n graph' h3 in
    let (u5, g5, s5, h5) = bind-ok (archive_nodes services m m.nodes) (λ _. close) g4 n graph' h4 in
    (g5, h5)

status_applied :
    (now : Text)
    → get
        ((codes "status", text (codes "applied")) ∷ (codes "merged_at", text now) ∷ [])
        (codes "status")
      ≡ some (text (codes "applied"))
unfolding get lookup text_discrete ℕ_discrete
status_applied now = refl

not_again :
    (g : MergeReads) (merge_id : Text)
    → ((m : Node)
        → g.node merge_id ≡ some m
        → get m.properties (codes "status") ≡ some (text (codes "applied")))
    → (error : RecordError) × (mergeable g merge_id ≡ err error)
unfolding mergeable read_node check_record value_at is_text
not_again g merge_id applied = elim (Option-cases (g.node merge_id)) [
  | inl absent ↦ (merge_error (not_found merge_id), ground arith)
  | inr (m, at) ↦ elim (text_discrete m.label (codes "MergeRecord")) [
    | no other ↦ (not_a_merge_record, ground (arith, at, other))
    | yes same ↦ (already_applied, ground (arith, at, same, applied m at))
  ]
]

-- Over a writer that stores the status that it patches, a merge that was applied is not applied again: the next
-- call raises and leaves the graph.
pub apply_merge-again :
    {G : Type 0} (services : MergeServices G) (now later merge_id : Text) (graph graph' : G)
    (n : Node)
    → StoresStatus services
    → apply_merge services now merge_id graph ≡ (ok n, graph')
    → (error : RecordError) × (apply_merge services later merge_id graph' ≡ (err error, graph'))
unfolding apply_merge
apply_merge-again services now later merge_id graph graph' n stores h =
    elim (Result-cases (mergeable (services.reads graph) merge_id)) [
      | inr (error, r) ↦ absurd (ground arith)
      | inl (m, r) ↦
          let (before, w) = last_write services now merge_id m graph graph' n (ground arith) in
          let (error, refused) = not_again (services.reads graph') merge_id (λ k at.
            stores.at merge_id (codes "applied") _ before graph' n k w at (status_applied now)) in
          (error, rw (refused, apply_merge) refl)
    ]
