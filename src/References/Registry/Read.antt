-- ===== src/References/Registry/Read.antt =====
-- ingestion/reference_registry.py: the methods of `RunReferenceRegistry` that only read, and the
-- snapshot of a run.
use my_digital_brain.Base.{
  Bool, false, not, Option, none, some, List, [], ◌∷◌, if◌then◌else◌, holds, Text, text_discrete,
  Table, get, put, Result, ok, err, ◌>>=◌, ◌>>◌, pure, raise, lift,
}
use my_digital_brain.References.Entry.{
  Kind, existing, proposed, Entry, kind_discrete, is_entry, Status,
}
use my_digital_brain.References.Errors
use my_digital_brain.References.Errors.{Error}
use my_digital_brain.References.Registry.{
  Registry, Act, internal_id, required_scope, init, store_entry,
}
use my_digital_brain.References.Registry.Register.{bind_proposal}

-- `expected_kind is not None and _kind(entry.object_kind) != _kind(expected_kind)`
unfoldable pub unexpected : Option Kind → Entry → Bool
unexpected none e = false
unexpected (some kind) e = not (holds (kind_discrete e.object_kind kind))

unfoldable pub check_kind : Option Kind → Entry → Text → Result Error Text
unfolding unexpected
check_kind expected e id = if unexpected expected e then err Errors.wrong_kind else ok id

-- `resolve` of a reference that is no bound proposal
unfoldable pub resolve_entry : Option Kind → Option Entry → Result Error Text
resolve_entry expected none = err Errors.unbound_ref
resolve_entry expected (some e) = elim e.status [
  | proposed ↦ err Errors.not_bound
  | existing ↦ elim e.backend_id [
    | none ↦ err Errors.not_bound
    | some id ↦ check_kind expected e id
  ]
]

-- `resolve` of a bound proposal; a binding without an entry is a `KeyError`.
unfoldable pub resolve_bound : Option Kind → Text → Option Entry → Result Error Text
resolve_bound expected id none = err Errors.unknown_ref
resolve_bound expected id (some e) = check_kind expected e id

unfoldable pub resolve : Registry → Text → Option Kind → Result Error Text
resolve r ref expected = elim (get r.proposal_bindings ref) [
  | some id ↦ resolve_bound expected id (get r.entries ref)
  | none ↦ resolve_entry expected (get r.entries ref)
]

unfoldable pub alias_for_internal : Registry → Text → Result Error Text
alias_for_internal r internal = elim (internal_id internal) [
  | err e ↦ err e
  | ok id ↦ elim (get r.internal_to_ref id) [
    | none ↦ err Errors.unregistered_id
    | some ref ↦ ok ref
  ]
]

unfoldable pub entry_for : Registry → Text → Result Error Entry
entry_for r ref = elim (get r.entries ref) [ none ↦ err Errors.unknown_ref | some e ↦ ok e ]

-- The comprehension of `backend_alias_map`.
unfoldable pub existing_ids : Table Entry → Table Text
existing_ids [] = []
existing_ids ((ref, e) ∷ entries) = elim e.status [
  | proposed ↦ existing_ids entries
  | existing ↦ elim e.backend_id [
    | none ↦ existing_ids entries
    | some id ↦ (ref, id) ∷ existing_ids entries
  ]
]

-- `d.update(e)`
unfoldable pub update : Table Text → Table Text → Table Text
update d [] = d
update d ((k, v) ∷ e) = update (put d k v) e

unfoldable pub backend_alias_map : Registry → Table Text
backend_alias_map r = update (existing_ids r.entries) r.proposal_bindings

-- The typed content of a snapshot; `snapshot` sorts the entries by reference, and a restore may
-- get them in any order.
pub record Snapshot : Type 0 where
  pub graph_scope : Text
  pub run_scope : Text
  pub entries : List Entry
  pub proposal_bindings : Table Text

-- `a is not None and a != b`
unfoldable pub differs : Option Text → Text → Bool
differs none b = false
differs (some a) b = not (holds (text_discrete a b))

-- The first loop of `from_snapshot`: `model_validate`, then `_store_entry`.
unfoldable pub restore_entries : List Entry → Act (Unit {0})
restore_entries [] = pure tt
restore_entries (e ∷ entries) =
    (if is_entry e then store_entry e else raise Errors.malformed_entry) >> restore_entries entries

-- A binding of an entry with the status.
unfoldable pub restore_status : Status → Text → Text → Act (Unit {0})
restore_status existing proposal_ref internal = raise Errors.binding_not_proposed
restore_status proposed proposal_ref internal = do
  id ← lift (internal_id internal)
  bind_proposal proposal_ref id none
  pure tt

-- One round of the second loop.
unfoldable pub restore_binding : Text → Text → Act (Unit {0})
restore_binding proposal_ref internal r = elim (get r.entries proposal_ref) [
  | none ↦ (err Errors.unknown_binding, r)
  | some proposal ↦ restore_status proposal.status proposal_ref internal r
]

unfoldable pub restore_bindings : Table Text → Act (Unit {0})
restore_bindings [] = pure tt
restore_bindings ((ref, id) ∷ bindings) = restore_binding ref id >> restore_bindings bindings

-- What a restore returns.
unfoldable pub restored : Result Error (Unit {0}) × Registry → Result Error Registry
restored (ok _, r) = ok r
restored (err e, r) = err e

-- `from_snapshot`
unfoldable pub from_snapshot : Snapshot → Option Text → Option Text → Result Error Registry
from_snapshot s graph_scope run_scope = elim (required_scope s.graph_scope) [
  | err e ↦ err e
  | ok graph ↦ elim (required_scope s.run_scope) [
    | err e ↦ err e
    | ok run ↦
        if differs graph_scope graph
        then err Errors.graph_mismatch
        else if differs run_scope run
        then err Errors.run_mismatch
        else elim (init graph run) [
          | err e ↦ err e
          | ok r ↦ restored ((restore_entries s.entries >> restore_bindings s.proposal_bindings) r)
        ]
  ]
]
