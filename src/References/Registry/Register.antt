-- ===== src/References/Registry/Register.antt =====
-- ingestion/reference_registry.py: the methods of `RunReferenceRegistry` that register references.
use my_digital_brain.Base.{
  raise, ℕ, ◌+◌, Bool, true, false, not, ◌||◌, Option, none, some, List, [], ◌∷◌, ◌++◌, map,
  if◌then◌else◌, holds, maximum, Text, text_discrete, starts_with, isdigit, int_of, rpartition,
  Table, get, put, keys, Result, ok, err, ◌>>=◌, ◌>>◌, pure, lift,
}
use my_digital_brain.References.Entry.{
  Kind, Status, existing, proposed, Entry, node, kind_discrete, owner_alias, person, prefix_for,
  is_candidate_prefixed, build_entry,
}
use my_digital_brain.References.Errors
use my_digital_brain.References.Mapper.{alias_for, register_alias, numbered}
use my_digital_brain.References.Registry.{Act, on_mapper, internal_id, elsewhere, store_entry}

-- What the caller gives of a reference besides its kind.
pub record Details : Type 0 where
  pub label : Text
  pub display_label : Option Text
  pub aliases : List Text

-- `ReferenceRegistryEntry(...)` in the scopes of the registry, and `_store_entry` of it.
unfoldable pub store_new : Text → Kind → Status → Option Text → Bool → Details → Act (Unit {0})
store_new ref kind status backend is_owner details r =
    (do
      entry ← lift (
          build_entry (record {
            ref = ref;
            object_kind = kind;
            status = status;
            label = details.label;
            backend_id = backend;
            graph_scope = r.graph_scope;
            session_scope = r.run_scope;
            display_label = details.display_label;
            aliases = details.aliases;
            is_owner = is_owner;
          }))
      store_entry entry)
      r

-- `_entries.get(OWNER_ALIAS)` against the id that is registered.
unfoldable pub other_owner : Option Entry → Text → Bool
other_owner none id = false
other_owner (some e) id = elim e.backend_id [
  | none ↦ true
  | some backend ↦ not (holds (text_discrete backend id))
]

-- `register_owner`, below the normalisation of the id
unfoldable pub put_owner : Option Text → List Text → Text → Act Text
put_owner display_label aliases id r =
    if elsewhere (get r.internal_to_ref id) owner_alias
    then (err Errors.owner_elsewhere, r)
    else if other_owner (get r.entries owner_alias) id
    then (err Errors.two_owners, r)
    else elim (get r.entries owner_alias) [
      | some _ ↦ (ok owner_alias, r)
      | none ↦
          (do
            store_new owner_alias node existing (some id) true
                (record { label = person; display_label = display_label; aliases = aliases })
            on_mapper (register_alias owner_alias id)
            pure owner_alias)
            r
    ]

unfoldable pub register_owner : Text → Option Text → List Text → Act Text
register_owner internal display_label aliases = do
  id ← lift (internal_id internal)
  put_owner display_label aliases id

-- The part of `register_existing` for an id that has no reference yet.
unfoldable pub add_existing : Kind → Details → Text → Act Text
add_existing kind details id = do
  alias ← on_mapper (alias_for id (prefix_for kind))
  store_new alias kind existing (some id) false details
  pure alias

-- The part of `register_existing` for an id that has the reference `ref`, for the entry that
-- stands under it; `none`, where there is none, stands for the `KeyError`.
unfoldable pub reuse_existing : Kind → Option Entry → Act Text
reuse_existing kind none r = (err Errors.unknown_ref, r)
reuse_existing kind (some e) r =
    if holds (kind_discrete e.object_kind kind) then (ok e.ref, r) else (err Errors.kind_changed, r)

-- `register_existing`, below the normalisation of the id
unfoldable pub put_existing : Kind → Details → Text → Act Text
put_existing kind details id r =
    if holds (text_discrete id owner_alias)
    then (err Errors.owner_as_id, r)
    else elim (get r.internal_to_ref id) [
      | none ↦ add_existing kind details id r
      | some ref ↦ reuse_existing kind (get r.entries ref) r
    ]

unfoldable pub register_existing : Text → Kind → Details → Act Text
register_existing internal kind details = do
  id ← lift (internal_id internal)
  put_existing kind details id

-- What `register_proposal` asks of an entry that is there.
unfoldable pub same_proposal : Entry → Kind → Text → Result Errors.Error (Unit {0})
same_proposal e kind label = elim e.status [
  | existing ↦ err Errors.not_a_proposal
  | proposed ↦
      if not (holds (kind_discrete e.object_kind kind)) || not (holds (text_discrete e.label label))
      then err Errors.proposal_changed
      else ok tt
]

unfoldable pub register_proposal : Text → Kind → Details → Act Text
register_proposal proposal_ref kind details r =
    if not (is_candidate_prefixed proposal_ref)
    then (err Errors.not_a_candidate, r)
    else elim (get r.entries proposal_ref) [
      | some current ↦ (do lift (same_proposal current kind details.label); pure proposal_ref) r
      | none ↦ (do store_new proposal_ref kind proposed none false details; pure proposal_ref) r
    ]

-- The number of a reference with the prefix: `int(ref.rsplit("_", 1)[1])`, under the tests of
-- `register_local`; 0 stands for a reference that they skip.
unfoldable pub number_of : Text → Text → ℕ
number_of prefix ref =
    if starts_with ref (prefix ++ b'_' ∷ [])
    then elim (rpartition ref) [
      | none ↦ 0
      | some (_, number) ↦ if isdigit number then int_of number else 0
    ]
    else 0

-- `max([...], default=0) + 1`
unfoldable pub next_number : Text → Table Entry → ℕ
next_number prefix entries = maximum (map (number_of prefix) (keys entries)) + 1

unfoldable pub register_local : Kind → Text → Option Text → Act Text
register_local kind label display_label r =
    let prefix = prefix_for kind in
    let ref = numbered prefix (next_number prefix r.entries) in
    (do
      store_new ref kind proposed none false
          (record { label = label; display_label = display_label; aliases = [] })
      pure ref)
      r

-- `previous is not None and previous != normalized_id`
unfoldable pub rebinds : Option Text → Text → Bool
rebinds none id = false
rebinds (some previous) id = not (holds (text_discrete previous id))

-- `label or proposal.label`
unfoldable pub label_or : Option Text → Text → Text
label_or none fallback = fallback
label_or (some []) fallback = fallback
label_or (some (c ∷ s)) fallback = c ∷ s

-- `self._proposal_bindings[ref] = id`
unfoldable pub bind : Text → Text → Act (Unit {0})
bind ref id r = (ok tt, record r { proposal_bindings = put r.proposal_bindings ref id })

-- `bind_proposal` of a registered proposal and a normalised id
unfoldable pub bind_entry : Text → Entry → Option Text → Text → Act Text
bind_entry proposal_ref proposal label id r =
    if rebinds (get r.proposal_bindings proposal_ref) id
    then (err Errors.rebound, r)
    else (do
      alias ← register_existing id proposal.object_kind (record {
        label = label_or label proposal.label;
        display_label = proposal.display_label;
        aliases = proposal.aliases;
      })
      bind proposal_ref id
      pure alias)
        r

-- `bind_proposal` of an entry with the status
unfoldable pub bind_status : Status → Text → Entry → Text → Option Text → Act Text
bind_status existing proposal_ref proposal internal label = raise Errors.not_bindable
bind_status proposed proposal_ref proposal internal label = do
  id ← lift (internal_id internal)
  bind_entry proposal_ref proposal label id

unfoldable pub bind_proposal : Text → Text → Option Text → Act Text
bind_proposal proposal_ref internal label r = elim (get r.entries proposal_ref) [
  | none ↦ (err Errors.not_bindable, r)
  | some proposal ↦ bind_status proposal.status proposal_ref proposal internal label r
]
