-- ===== src/References/Registry/Calls.antt =====
-- Sequences of calls on one registry.
use my_digital_brain.Base.{
  [], ◌∷◌, inl, inr, Bool, Option, none, some, List, Option-cases, Text, get, kept, Keeps,
  Keeps-bind, kept-if, Keeps-lift, Keeps-pure, Keeps-raise, Exec,
}
use my_digital_brain.References.Entry.{Kind, Status, existing, proposed, Entry, owner_alias}
use my_digital_brain.References.Errors.{Error}
use my_digital_brain.References.Registry.{
  on_mapper, store_entry, Act, internal_id, store_entry, Registry,
}
use my_digital_brain.References.Mapper.{Mapper}
use my_digital_brain.References.Registry.Register.{
  Details, store_new, put_owner, register_owner, add_existing, reuse_existing, put_existing,
  register_existing, register_proposal, register_local, bind, bind_entry, bind_status,
  bind_proposal,
}

-- The calls that change a registry.
pub data Call : Type 0 where
  owner : Text → Option Text → List Text → Call
  existing_object : Text → Kind → Details → Call
  proposed_object : Text → Kind → Details → Call
  local_object : Kind → Text → Option Text → Call
  binding : Text → Text → Option Text → Call

unfoldable pub call : Call → Act Text
call (owner internal display_label aliases) = register_owner internal display_label aliases
call (existing_object internal kind details) = register_existing internal kind details
call (proposed_object ref kind details) = register_proposal ref kind details
call (local_object kind label display_label) = register_local kind label display_label
call (binding ref internal label) = bind_proposal ref internal label

-- The registry after calls of which any may raise; the caller catches the `ValueError`.
unfoldable pub after : List Call → Registry → Registry
unfolding call
after [] r = r
after (c ∷ calls) r = after calls (call c r).1

ruleset writes = (kept-if, kept, Keeps-bind, Keeps-lift, Keeps-pure, Keeps-raise)

-- What the three writes of a registry keep, every call keeps, whether it returns or raises.
module _ (P : Registry → Type 0) (store_entry-P : (e : Entry) → Keeps P (store_entry e))
    (on_mapper-P : (A : Type 0) (m : Exec Mapper Error A) → Keeps P (on_mapper m))
    (bind-P : (ref id : Text) → Keeps P (bind ref id)) where
  store_new-P :
      (ref : Text) (kind : Kind) (status : Status) (backend : Option Text) (is_owner : Bool)
      (details : Details)
      → Keeps P (store_new ref kind status backend is_owner details)
  unfolding store_new
  store_new-P ref kind status backend is_owner details r h =
      Keeps-lift P _ store_entry (λ e _. store_entry-P e) r h

  put_owner-P :
      (display_label : Option Text) (aliases : List Text) (id : Text)
      → Keeps P (put_owner display_label aliases id)
  unfolding put_owner
  put_owner-P display_label aliases id r h = elim (Option-cases (get r.entries owner_alias)) [
    | inl e ↦ rw (e, put_owner) (search (writes, store_new-P))
    | inr (a, e) ↦ rw (e, put_owner) (search (writes))
  ]

  register_owner-P :
      (internal : Text) (display_label : Option Text) (aliases : List Text)
      → Keeps P (register_owner internal display_label aliases)
  unfolding register_owner
  register_owner-P internal display_label aliases r h =
      Keeps-lift P _ _ (λ id _. put_owner-P display_label aliases id) r h

  add_existing-P :
      (kind : Kind) (details : Details) (id : Text) → Keeps P (add_existing kind details id)
  unfolding add_existing
  add_existing-P kind details id r h = search (writes, store_new-P)

  reuse_existing-P : (kind : Kind) (o : Option Entry) → Keeps P (reuse_existing kind o)
  unfolding reuse_existing
  reuse_existing-P kind none r h = search (writes)
  reuse_existing-P kind (some e) r h = search (writes)

  put_existing-P :
      (kind : Kind) (details : Details) (id : Text) → Keeps P (put_existing kind details id)
  unfolding put_existing
  put_existing-P kind details id r h = elim (Option-cases (get r.internal_to_ref id)) [
    | inl e ↦ rw (e, put_existing) (search (writes, add_existing-P))
    | inr (ref, e) ↦ rw (e, put_existing) (search (writes, reuse_existing-P))
  ]

  register_existing-P :
      (internal : Text) (kind : Kind) (details : Details)
      → Keeps P (register_existing internal kind details)
  unfolding register_existing
  register_existing-P internal kind details r h =
      Keeps-lift P _ _ (λ id _. put_existing-P kind details id) r h

  register_proposal-P :
      (ref : Text) (kind : Kind) (details : Details) → Keeps P (register_proposal ref kind details)
  unfolding register_proposal
  register_proposal-P ref kind details r h = elim (Option-cases (get r.entries ref)) [
    | inl e ↦ rw (e, register_proposal) (search (writes, store_new-P))
    | inr (current, e) ↦ rw (e, register_proposal) (search (writes))
  ]

  register_local-P :
      (kind : Kind) (label : Text) (display_label : Option Text)
      → Keeps P (register_local kind label display_label)
  unfolding register_local
  register_local-P kind label display_label r h = search (writes, store_new-P)

  bind_entry-P :
      (ref : Text) (proposal : Entry) (label : Option Text) (id : Text)
      → Keeps P (bind_entry ref proposal label id)
  unfolding bind_entry
  bind_entry-P ref proposal label id r h = search (writes, register_existing-P, bind-P)

  bind_status-P :
      (status : Status) (ref : Text) (proposal : Entry) (internal : Text) (label : Option Text)
      → Keeps P (bind_status status ref proposal internal label)
  unfolding bind_status
  bind_status-P existing ref proposal internal label r h = search (writes)
  bind_status-P proposed ref proposal internal label r h =
      Keeps-lift P (internal_id internal) _ (λ id _. bind_entry-P ref proposal label id) r h

  pub bind_proposal-P :
      (ref internal : Text) (label : Option Text) → Keeps P (bind_proposal ref internal label)
  unfolding bind_proposal
  bind_proposal-P ref internal label r h = elim (Option-cases (get r.entries ref)) [
    | inl e ↦ rw (e, bind_proposal) (search (writes))
    | inr (proposal, e) ↦ rw (e, bind_proposal) (search bind_status-P)
  ]

  call-P : (c : Call) → Keeps P (call c)
  unfolding call
  call-P (owner internal display_label aliases) = register_owner-P internal display_label aliases
  call-P (existing_object internal kind details) = register_existing-P internal kind details
  call-P (proposed_object ref kind details) = register_proposal-P ref kind details
  call-P (local_object kind label display_label) = register_local-P kind label display_label
  call-P (binding ref internal label) = bind_proposal-P ref internal label

  pub after-P : (calls : List Call) (r : Registry) → P r → P (after calls r)
  unfolding after
  after-P [] r h = h
  after-P (c ∷ calls) r h = after-P calls (call c r).1 (call-P c r h).at
