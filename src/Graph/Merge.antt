-- ===== src/Graph/Merge.antt =====
-- graph/merge_service.py: the merge records of `GraphMergeService`. The writer and the memory
-- service are parameters; what was written before an exception stays written.
pub mod Apply
pub mod Guards
pub mod Records
use my_digital_brain.Base.{
  Bool, Exec, List, Result, Text, [], codes, elem, err, false, get, holds, if◌then◌else◌, none, ok,
  some, text_discrete, true, values, ◌&&◌, ◌∷◌, not,
}
use my_digital_brain.Graph.Values.{
  Value, null, flag, number, text, dictionary, many, Values, nil, cons, Properties, contains,
  add_value, same_values, same_value,
}
use my_digital_brain.Graph.Canonical.{Node, MergeReads, MergeError, validate_merge_nodes}

-- The exceptions: those of the node checks, and those of the records.
pub data RecordError : Type 0 where
  merge_error : MergeError → RecordError
  not_a_merge_record : RecordError
  unsupported_status : RecordError
  apply_endpoint_required : RecordError
  already_applied : RecordError
  not_proposed : RecordError
  malformed_record : RecordError
  write_failed : Text → RecordError

-- A change record; the values are those that `dump_change_value` prints.
pub record ChangeRecord : Type 0 where
  pub target_id : Text
  pub target_label : Text
  pub field_path : Text
  pub previous_value : Properties
  pub new_value : Properties
  pub changed_by : Value
  pub reason : Value
  pub source_ids : Value
  pub extraction_run_ids : Value

-- The writer and the memory service, over the graph `G`; reads leave the graph.
pub record MergeServices (G : Type 0) : Type 0 where
  pub reads : G → MergeReads
  pub upsert_relationship : Text → Text → Text → Exec G RecordError Unit
  pub patch_node : Text → Properties → Exec G RecordError Node
  pub upsert_node : Text → Properties → Exec G RecordError Node
  pub create_change_record : ChangeRecord → Exec G RecordError Unit

-- `properties.get(key)`
unfoldable pub value_at : Text → Properties → Value
value_at key ps = elim (get ps key) [ none ↦ null | some v ↦ v ]

-- `properties.get(key, [])`
unfoldable pub value_or_empty : Text → Properties → Value
value_or_empty key ps = elim (get ps key) [ none ↦ many nil | some v ↦ v ]

-- The characters of a text.
unfoldable pub characters : Text → Values
characters [] = nil
characters (c ∷ s) = cons (text (c ∷ [])) (characters s)

-- `list(value)`; a dictionary is kept as its text, so that its keys are not read.
unfoldable pub as_list : Value → Result RecordError Values
as_list (many values) = ok values
as_list (text s) = ok (characters s)
as_list _ = err malformed_record

-- `values if isinstance(values, list)`
unfoldable pub listed : Value → Values
listed (many values) = values
listed _ = nil

unfoldable pub extend : Values → Values → Values
extend nil more = more
extend (cons v values) more = cons v (extend values more)

-- `merged_values`
unfoldable pub merged_values : Text → List Node → Values
merged_values field [] = nil
merged_values field (n ∷ nodes) =
    extend (listed (value_or_empty field n.properties)) (merged_values field nodes)

-- `merge_unique_values`
unfoldable pub merge_unique_values : Values → Values → Values
merge_unique_values merged nil = merged
merge_unique_values merged (cons v additions) =
    merge_unique_values (if contains v merged then merged else add_value merged v) additions

abbrev pub alias_labels : List Text
alias_labels = codes "Person" ∷ codes "Organization" ∷ codes "Animal" ∷ codes "Topic" ∷ []

abbrev pub safe_merge_list_fields : List Text
safe_merge_list_fields = codes "aliases" ∷ codes "source_ids" ∷ codes "extraction_run_ids" ∷ []

-- `field == "aliases" and canonical.label not in ALIAS_LABELS`
unfoldable pub is_skipped : Text → Text → Bool
is_skipped field label =
    holds (text_discrete field (codes "aliases")) && not (elem text_discrete label alias_labels)

-- The loop of `_safe_merge_patch`, over a set of which the order is fixed here.
unfoldable pub merge_fields : Node → List Node → List Text → Result RecordError Properties
merge_fields canonical nodes [] = ok []
merge_fields canonical nodes (field ∷ fields) = elim (is_skipped field canonical.label) [
  | true ↦ merge_fields canonical nodes fields
  | false ↦ elim (as_list (value_or_empty field canonical.properties)) [
    | err error ↦ err error
    | ok current ↦
        let merged = merge_unique_values current (merged_values field nodes) in
        elim (merge_fields canonical nodes fields) [
          | err error ↦ err error
          | ok rest ↦
              if same_values merged current then ok rest else ok ((field, many merged) ∷ rest)
        ]
  ]
]

-- `_safe_merge_patch`
unfoldable pub safe_merge_patch : Node → List Node → Result RecordError Properties
safe_merge_patch canonical nodes = merge_fields canonical nodes safe_merge_list_fields

-- The previous values of a patch, where they differ.
unfoldable pub previous_values : Node → Properties → Properties
previous_values n [] = []
previous_values n ((field, v) ∷ patch) =
    let rest = previous_values n patch in
    if same_value (value_at field n.properties) v
    then rest
    else (field, value_at field n.properties) ∷ rest

-- `value or "system"`, for a text
unfoldable pub or_system : Value → Value
or_system null = text (codes "system")
or_system (text []) = text (codes "system")
or_system v = v

-- The change record of a patch; what it tells of the merge is in the merge record.
unfoldable pub change_record : Node → Text → Text → Text → Properties → Properties → ChangeRecord
change_record merge target_id target_label field_path previous new = record {
  target_id = target_id;
  target_label = target_label;
  field_path = field_path;
  previous_value = previous;
  new_value = new;
  changed_by = or_system (value_at (codes "performed_by") merge.properties);
  reason = value_at (codes "reason") merge.properties;
  source_ids = value_or_empty (codes "source_ids") merge.properties;
  extraction_run_ids = value_or_empty (codes "extraction_run_ids") merge.properties;
}

-- The texts of a list of ids.
unfoldable pub id_texts : Values → Result RecordError (List Text)
id_texts nil = ok []
id_texts (cons (text s) values) = elim (id_texts values) [
  | err error ↦ err error
  | ok ids ↦ ok (s ∷ ids)
]
id_texts (cons _ values) = err malformed_record

-- `canonical_node_id` and `merged_node_ids` of a merge record; an absent id is a `KeyError`.
unfoldable pub canonical_id_of : Node → Result RecordError Text
canonical_id_of merge = elim (value_at (codes "canonical_node_id") merge.properties) [
  | text s ↦ ok s
  | _ ↦ err malformed_record
]

unfoldable pub merged_ids_of : Node → Result RecordError (List Text)
merged_ids_of merge = elim (as_list (value_or_empty (codes "merged_node_ids") merge.properties)) [
  | err error ↦ err error
  | ok values ↦ id_texts values
]

unfoldable pub is_text : Value → Text → Bool
is_text (text s) t = holds (text_discrete s t)
is_text _ t = false

-- The checks of `apply_merge` on the record.
unfoldable pub check_record : Node → Result RecordError Unit
check_record merge =
    let status = value_at (codes "status") merge.properties in
    if not (holds (text_discrete merge.label (codes "MergeRecord")))
    then err not_a_merge_record
    else if is_text status (codes "applied")
    then err already_applied
    else if not (is_text status (codes "proposed"))
    then err not_proposed
    else ok tt
