-- ===== src/Tests/Graph.antt =====
-- Chains of merges at a concrete input.
use my_digital_brain.Graph.Canonical.{
  MergeReads, Node, get_canonical_node, get_nodes, has_duplicates, not_found, out_of_fuel,
  validate_merge_nodes,
}
use my_digital_brain.Graph.Canonical.Chain.{
  Explains, get_canonical_node-Explains, get_canonical_node-ends,
}
use my_digital_brain.Graph.Merge.{
  MergeServices, RecordError, as_list, canonical_id_of, check_record, extend, id_texts, is_skipped,
  is_text, listed, merge_error, merge_fields, merge_unique_values, merged_ids_of, merged_values,
  safe_merge_patch, value_at, value_or_empty,
}
use my_digital_brain.Graph.Merge.Apply.{
  Mergeable, apply_merge, archive_nodes, checked_nodes, id_of, link_nodes, mergeable,
  patch_canonical, read_node, write_merge,
}
use my_digital_brain.Graph.Merge.Guards.{
  IsApplicable, StoresStatus, apply_merge-again, apply_merge-guarded,
}
use my_digital_brain.Graph.Values.{
  Properties, Value, cons, many, nil, null, same_value, same_values, text, flag, number, dictionary,
}
use my_digital_brain.Base.{
  Option, Result, Table, Text, [], arith, codes, elem, err, get, get-put_self, holds, insert,
  lookup, none, ok, pure, put, refl, some, text_discrete, true, ℕ_discrete, ◌∷◌, ◌≡◌, ◌≢◌,
  if◌then◌else◌, ◌⊎◌, get-put, ◌∙◌,
}

abbrev person : Node
person = record { label = codes "Person"; properties = [] }

-- Two persons, of whom the first is merged into the second.
abbrev merged : MergeReads
merged = record {
  node = get ((codes "a", person) ∷ (codes "b", person) ∷ []);
  merged_into = λ id. if holds (text_discrete id (codes "a")) then codes "b" ∷ [] else [];
}

merged-finite :
    (id : Text) (n : Node)
    → merged.node id ≡ some n
    → elem text_discrete id (codes "a" ∷ codes "b" ∷ []) ≡ true
unfolding get lookup
merged-finite id n h = ground arith

get_canonical_node-ends_example : get_canonical_node merged 3 (codes "a") ≢ err out_of_fuel
get_canonical_node-ends_example =
    get_canonical_node-ends merged (codes "a" ∷ codes "b" ∷ []) 3 (codes "a") merged-finite
      (omega arith)

get_canonical_node-Explains_example :
    Explains merged (codes "a") (get_canonical_node merged 3 (codes "a"))
get_canonical_node-Explains_example = get_canonical_node-Explains merged 3 (codes "a")

-- The properties without one of them.
abbrev without : Properties → Text → Properties
without [] key = []
without ((k, v) ∷ ps) key =
    if holds (text_discrete k key) then without ps key else (k, v) ∷ without ps key

get-without : (ps : Properties) (key k : Text) → key ≢ k → get (without ps key) k ≡ get ps k
unfolding get lookup
get-without [] key k away = refl
get-without ((k', v) ∷ ps) key k away = ground (arith, get-without ps key k away)

-- A property is set, or, with the value `None`, removed.
abbrev set : Properties → Text → Value → Properties
set ps key null = without ps key
set ps key v = put ps key v

get-set_text : (ps : Properties) (key s : Text) → get (set ps key (text s)) key ≡ some (text s)
get-set_text ps key s = get-put_self ps key (text s)

get-put_other :
    (ps : Properties) (key k : Text) (v : Value) → key ≢ k → get (put ps key v) k ≡ get ps k
get-put_other ps key k v away = ground (arith, get-put ps key k v, away)

get-set_other :
    (ps : Properties) (key k : Text) (v : Value) → key ≢ k → get (set ps key v) k ≡ get ps k
get-set_other ps key k null away = get-without ps key k away
get-set_other ps key k (flag b) away = get-put_other ps key k (flag b) away
get-set_other ps key k (number n) away = get-put_other ps key k (number n) away
get-set_other ps key k (text t) away = get-put_other ps key k (text t) away
get-set_other ps key k (dictionary t) away = get-put_other ps key k (dictionary t) away
get-set_other ps key k (many vs) away = get-put_other ps key k (many vs) away

-- `SET n += patch`
abbrev overlaid : Properties → Properties → Properties
overlaid ps [] = ps
overlaid ps ((key, v) ∷ patch) = set (overlaid ps patch) key v

get-overlaid :
    (ps patch : Properties) (k s : Text)
    → get patch k ≡ some (text s)
    → get (overlaid ps patch) k ≡ some (text s)
unfolding get lookup
get-overlaid ps [] k s h = absurd (ground arith)
get-overlaid ps ((key, v) ∷ patch) k s h = elim (text_discrete key k) [
  | yes same ↦
      let is_text_value : v ≡ text s = ground (arith, same) in
      rw (is_text_value, same) (get-set_text (overlaid ps patch) k s)
  | no away ↦
      get-set_other (overlaid ps patch) key k v away
      ∙ get-overlaid ps patch k s (ground (arith, away))
]

-- A writer over a table of nodes, which overlays the properties of the node and drops the nulls.
abbrev patched : Text → Properties → Table Node → Option Node → Result RecordError Node × Table Node
patched id patch graph none = (err (merge_error (not_found id)), graph)
patched id patch graph (some n) =
    let m : Node = record n { properties = overlaid n.properties patch } in (ok m, put graph id m)

abbrev in_memory : MergeServices (Table Node)
in_memory = record {
  reads = λ graph. record { node = get graph; merged_into = λ id. [] };
  upsert_relationship = λ type a b. pure tt;
  patch_node = λ id patch graph. patched id patch graph (get graph id);
  upsert_node = λ label ps. pure (record { label = label; properties = ps });
  create_change_record = λ change. pure tt;
}

patched-status :
    (id status : Text) (patch : Properties) (graph graph' : Table Node) (found : Option Node)
    (n m : Node)
    → patched id patch graph found ≡ (ok n, graph')
    → get graph' id ≡ some m
    → get patch (codes "status") ≡ some (text status)
    → get m.properties (codes "status") ≡ some (text status)
patched-status id status patch graph graph' none n m r g h = absurd (ground arith)
patched-status id status patch graph graph' (some k) n m r g h =
    let stored : Node = record k { properties = overlaid k.properties patch } in
    let same : m ≡ stored = ground (arith, get-put_self graph id stored) in
    rw same (get-overlaid k.properties patch (codes "status") status h)

in_memory-StoresStatus : StoresStatus in_memory
in_memory-StoresStatus = record {
  at = λ id status patch graph graph' n m r g h.
      patched-status id status patch graph graph' (get graph id) n m r g h;
}

abbrev anna : Text → Node
anna id = record { label = codes "Person"; properties = (codes "id", text id) ∷ [] }

abbrev before : Table Node
before =
    (codes "a", anna (codes "a"))
    ∷ (codes "b", anna (codes "b"))
    ∷ (
      codes "m",
      record {
        label = codes "MergeRecord";
        properties =
            (codes "canonical_node_id", text (codes "b"))
            ∷ (codes "merged_node_ids", many (cons (text (codes "a")) nil))
            ∷ (codes "status", text (codes "proposed"))
            ∷ [];
      },
    )
    ∷ []

abbrev outcome : Result RecordError Node × Table Node
outcome = apply_merge in_memory (codes "t") (codes "m") before

abbrev after : Table Node
after = outcome.1

abbrev applied : Node
applied = elim outcome.0 [ ok n ↦ n | err e ↦ anna [] ]

applies : apply_merge in_memory (codes "t") (codes "m") before ≡ (ok applied, after)
unfolding apply_merge mergeable read_node check_record value_at is_text canonical_id_of
    merged_ids_of as_list value_or_empty id_texts checked_nodes validate_merge_nodes has_duplicates
    get_nodes write_merge link_nodes id_of safe_merge_patch merge_fields is_skipped merged_values
    listed extend merge_unique_values same_values same_value patch_canonical archive_nodes get put
    lookup insert text_discrete ℕ_discrete
applies = refl

apply_merge-again_example :
    (error : RecordError) × (apply_merge in_memory (codes "u") (codes "m") after
      ≡ (err error, after))
apply_merge-again_example =
    apply_merge-again in_memory (codes "t") (codes "u") (codes "m") before after applied
      in_memory-StoresStatus applies

apply_merge-guarded_example :
    ((m : Mergeable) × IsApplicable (in_memory.reads before) (codes "m") m
      × (apply_merge in_memory (codes "t") (codes "m") before
          ≡ write_merge in_memory (codes "t") (codes "m") m before))
    ⊎ ((error : RecordError) × (apply_merge in_memory (codes "t") (codes "m") before
          ≡ (err error, before)))
apply_merge-guarded_example = apply_merge-guarded in_memory (codes "t") (codes "m") before
