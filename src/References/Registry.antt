-- ===== src/References/Registry.antt =====
-- ingestion/reference_registry.py: `RunReferenceRegistry`, the references of one ingestion run.
-- A method returns the registry that it leaves, also beside an exception.
pub mod Register
pub mod Read
pub mod Index
pub mod Calls
pub mod Identity
pub mod Stability
pub mod Allocation
pub mod Collision
pub mod Again
pub mod Restore
use my_digital_brain.Base.{
  Bool, false, not, ◌&&◌, ◌||◌, Option, none, some, [], ◌∷◌, if◌then◌else◌, holds, Text,
  text_discrete, strip, Table, get, put, Result, ok, err, Exec, ◌>>=◌, ◌>>◌, lift,
}
use my_digital_brain.References.Entry.{
  Entry, entry_discrete, owner_alias, is_alias, is_candidate_prefixed,
}
use my_digital_brain.References.Errors
use my_digital_brain.References.Errors.{Error}
use my_digital_brain.References.Mapper.{Mapper, empty_mapper, register_alias}

pub record Registry : Type 0 where
  pub graph_scope : Text
  pub run_scope : Text
  pub mapper : Mapper
  pub entries : Table Entry
  pub internal_to_ref : Table Text
  pub proposal_bindings : Table Text

abbrev pub Act : Type 0 → Type 0
Act A = Exec Registry Error A

-- A call on `self._mapper`.
unfoldable pub on_mapper : {A : Type 0} → Exec Mapper Error A → Act A
on_mapper m r = ((m r.mapper).0, record r { mapper = (m r.mapper).1 })

-- `_required_scope`
unfoldable pub required_scope : Text → Result Error Text
required_scope value = elim (strip value) [ [] ↦ err Errors.empty_scope | c ∷ s ↦ ok (c ∷ s) ]

-- `_internal_id`
unfoldable pub internal_id : Text → Result Error Text
internal_id value = elim (strip value) [
  | [] ↦ err Errors.empty_id
  | c ∷ s ↦
      if holds (text_discrete (c ∷ s) owner_alias) || is_alias (c ∷ s)
      then err Errors.reserved_id
      else ok (c ∷ s)
]

-- `RunReferenceRegistry(graph_scope=..., run_scope=...)`
unfoldable pub init : Text → Text → Result Error Registry
init graph_scope run_scope = elim (required_scope graph_scope) [
  | err e ↦ err e
  | ok graph ↦ elim (required_scope run_scope) [
    | err e ↦ err e
    | ok run ↦ ok (record {
      graph_scope = graph;
      run_scope = run;
      mapper = empty_mapper;
      entries = [];
      internal_to_ref = [];
      proposal_bindings = [];
    })
  ]
]

-- `current is not None and current != entry`
unfoldable pub conflicts : Option Entry → Entry → Bool
conflicts none entry = false
conflicts (some current) entry = not (holds (entry_discrete current entry))

-- `existing_ref not in (None, expected)`
unfoldable pub elsewhere : Option Text → Text → Bool
elsewhere none expected = false
elsewhere (some ref) expected = not (holds (text_discrete ref expected))

-- The last statement of `_store_entry`.
unfoldable pub keep : Entry → Act (Unit {0})
keep entry r = (ok tt, record r { entries = put r.entries entry.ref entry })

-- `self._internal_to_ref[id] = ref`
unfoldable pub index : Text → Text → Act (Unit {0})
index id ref r = (ok tt, record r { internal_to_ref = put r.internal_to_ref id ref })

-- The branch of `_store_entry` for an entry with a backend id.
unfoldable pub store_backend : Entry → Text → Act (Unit {0})
store_backend entry id r =
    if elsewhere (get r.internal_to_ref id) entry.ref
    then (err Errors.registered_elsewhere, r)
    else (do index id entry.ref; on_mapper (register_alias entry.ref id); keep entry) r

-- The part of `_store_entry` below its checks.
unfoldable pub store_checked : Entry → Option Text → Act (Unit {0})
store_checked entry none = keep entry
store_checked entry (some backend) = do id ← lift (internal_id backend); store_backend entry id

-- `_store_entry`
unfoldable pub store_entry : Entry → Act (Unit {0})
store_entry entry r =
    if not (holds (text_discrete entry.graph_scope r.graph_scope))
      || not (holds (text_discrete entry.session_scope r.run_scope))
    then (err Errors.wrong_scope, r)
    else if not (is_alias entry.ref) && not (is_candidate_prefixed entry.ref)
    then (err Errors.invalid_ref, r)
    else if conflicts (get r.entries entry.ref) entry
    then (err Errors.already_registered, r)
    else store_checked entry entry.backend_id r
