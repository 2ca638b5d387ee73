-- ===== src/References/Registry/Restore.antt =====
-- A registry that is restored from a snapshot has a consistent index, or the restore raises.
use mathlib.Core.Path.{subst}
use my_digital_brain.Base.{
  Result-cases, inl, inr, ◌>>◌, ◌≡◌, inl, inr, Bool, true, false, Option, none, List, [], ◌∷◌,
  arith, if◌then◌else◌, Option-cases, Text, Table, get, Result, ok, err, ◌>>◌, raise, kept, Keeps,
  Result-cases, Keeps-bind, kept-if, Keeps-lift, Keeps-pure, Keeps-raise,
}
use my_digital_brain.References.Errors.{Error, malformed_entry}
use my_digital_brain.References.Entry.{Status, existing, proposed, Entry, is_entry}
use my_digital_brain.References.Registry.{
  required_scope, init, Registry, internal_id, required_scope, init, store_entry,
}
use my_digital_brain.References.Registry.Index.{
  IsIndexed, on_mapper-IsIndexed, store_entry-IsIndexed,
}
use my_digital_brain.References.Registry.Identity.{bind-IsIndexed, entries-init, IsIndexed-of_empty}
use my_digital_brain.References.Registry.Calls.{bind_proposal-P}
use my_digital_brain.References.Registry.Register.{bind_proposal}
use my_digital_brain.References.Registry.Read.{
  from_snapshot, restored, Snapshot, restore_entries, restore_status, restore_binding,
  restore_bindings, restored, from_snapshot,
}

ruleset writes = (kept-if, kept, Keeps-bind, Keeps-lift, Keeps-pure, Keeps-raise)

bind_proposal-IsIndexed :
    (ref internal : Text) (label : Option Text) → Keeps IsIndexed (bind_proposal ref internal label)
bind_proposal-IsIndexed =
    bind_proposal-P IsIndexed store_entry-IsIndexed (λ A. on_mapper-IsIndexed) bind-IsIndexed

restore_entries-IsIndexed : (entries : List Entry) → Keeps IsIndexed (restore_entries entries)
unfolding restore_entries
restore_entries-IsIndexed [] = Keeps-pure IsIndexed tt
restore_entries-IsIndexed (e ∷ entries) =
    Keeps-bind IsIndexed _ _ (checked (is_entry e)) (λ _. restore_entries-IsIndexed entries)
  where
    checked : (b : Bool) → Keeps IsIndexed (if b then store_entry e else raise malformed_entry)
    checked true = store_entry-IsIndexed e
    checked false = Keeps-raise IsIndexed malformed_entry

restore_status-IsIndexed :
    (status : Status) (ref internal : Text) → Keeps IsIndexed (restore_status status ref internal)
unfolding restore_status
restore_status-IsIndexed existing ref internal r h = search writes
restore_status-IsIndexed proposed ref internal r h =
    Keeps-lift IsIndexed (internal_id internal) _
      (λ id _.
        Keeps-bind IsIndexed (bind_proposal ref id none) _ (bind_proposal-IsIndexed ref id none)
          (λ _. Keeps-pure IsIndexed tt))
      r h

restore_binding-IsIndexed : (ref internal : Text) → Keeps IsIndexed (restore_binding ref internal)
unfolding restore_binding
restore_binding-IsIndexed ref internal r h = elim (Option-cases (get r.entries ref)) [
  | inl e ↦ rw (e, restore_binding) (search writes)
  | inr (proposal, e) ↦ rw (e, restore_binding) (search restore_status-IsIndexed)
]

restore_bindings-IsIndexed : (bindings : Table Text) → Keeps IsIndexed (restore_bindings bindings)
unfolding restore_bindings
restore_bindings-IsIndexed [] = Keeps-pure IsIndexed tt
restore_bindings-IsIndexed ((ref, id) ∷ bindings) =
    Keeps-bind IsIndexed (restore_binding ref id) _ (restore_binding-IsIndexed ref id)
      (λ _. restore_bindings-IsIndexed bindings)

restored-ok : (x : Result Error (Unit {0}) × Registry) (r : Registry) → restored x ≡ ok r → x.1 ≡ r
unfolding restored
restored-ok (ok u, s) r h = ground arith
restored-ok (err e, s) r h = absurd (ground arith)

-- A restore that returned went through a new registry.
from_snapshot-ok :
    (s : Snapshot) (graph run : Option Text) (r : Registry)
    → from_snapshot s graph run ≡ ok r
    → (a : Text) × (b : Text) × (new : Registry) × (init a b ≡ ok new)
      × (restored ((restore_entries s.entries >> restore_bindings s.proposal_bindings) new) ≡ ok r)
unfolding from_snapshot
from_snapshot-ok s graph run r h = elim (Result-cases (required_scope s.graph_scope)) [
  | inr (e, p) ↦ absurd (ground arith)
  | inl (a, p) ↦ elim (Result-cases (required_scope s.run_scope)) [
    | inr (e, q) ↦ absurd (ground arith)
    | inl (b, q) ↦ elim (Result-cases (init a b)) [
      | inr (e, n) ↦ absurd (ground arith)
      | inl (new, n) ↦ (a, b, new, n, ground arith)
    ]
  ]
]

-- If a restore returns, whatever the snapshot holds, the registry is indexed: every entry stands
-- under its own reference, and its backend id, stripped, leads to that reference.
pub from_snapshot-IsIndexed :
    (s : Snapshot) (graph run : Option Text) (r : Registry)
    → from_snapshot s graph run ≡ ok r
    → IsIndexed r
from_snapshot-IsIndexed s graph run r h =
    let (a, b, new, n, made) = from_snapshot-ok s graph run r h in
    subst IsIndexed
      (restored-ok ((restore_entries s.entries >> restore_bindings s.proposal_bindings) new) r made)
      (Keeps-bind IsIndexed (restore_entries s.entries) _ (restore_entries-IsIndexed s.entries)
        (λ _. restore_bindings-IsIndexed s.proposal_bindings) new
        (IsIndexed-of_empty new (entries-init a b new n))).at
