-- ===== src/References/Registry/Again.antt =====
-- Registering an object a second time.
use my_digital_brain.Base.{
  strip, ap, sym, ◌∙◌, refl, ◌≢◌, bind-ok, Bool-cases, Option-cases, holds, text_discrete, ◌≡◌,
  refl, inl, inr, false, some, arith, holds, Bool-cases, Option-cases, Text, text_discrete, get,
  get-put_self, ok, Result-cases,
}
use mathlib.Core.Path.{subst₂}
use my_digital_brain.References.Entry.{
  owner_alias, Kind, existing, build_entry, prefix_for, Kind, existing, Entry, prefix_for,
  owner_alias, build_entry,
}
use my_digital_brain.References.Mapper.{alias_for, register_alias}
use my_digital_brain.References.Registry.{
  Registry, on_mapper, internal_id, keep, index, store_backend, store_checked, store_entry,
}
use my_digital_brain.References.Registry.Index.{IsIndexed}
use my_digital_brain.References.Registry.Collision.{internal_id_idem}
use my_digital_brain.References.Registry.Read.{alias_for_internal}
use my_digital_brain.References.Registry.Register.{
  Details, store_new, add_existing, reuse_existing, put_existing, register_existing, Details,
  store_new, add_existing, reuse_existing, put_existing, register_existing,
}

-- The object has the reference, and the entry that stands there has the kind.
record IsRegistered (id ref : Text) (kind : Kind) (r : Registry) : Type 0 where
  leads : get r.internal_to_ref id ≡ some ref
  entry : Entry
  stands : get r.entries ref ≡ some entry
  named : entry.ref ≡ ref
  kind_kept : entry.object_kind ≡ kind

store_backend-ok :
    (e : Entry) (id : Text) (r r' : Registry)
    → store_backend e id r ≡ (ok tt, r')
    → (get r'.internal_to_ref id ≡ some e.ref) × (get r'.entries e.ref ≡ some e)
unfolding store_backend index on_mapper keep
store_backend-ok e id r r' h = elim (Result-cases (register_alias e.ref id r.mapper).0) [
  | inl (u, p) ↦ (
    ground (arith, get-put_self r.internal_to_ref id e.ref),
    ground (arith, get-put_self r.entries e.ref e),
  )
  | inr (error, p) ↦ absurd (ground arith)
]

store_entry-ok :
    (e : Entry) (id : Text) (r r' : Registry)
    → e.backend_id ≡ some id
    → internal_id id ≡ ok id
    → store_entry e r ≡ (ok tt, r')
    → (get r'.internal_to_ref id ≡ some e.ref) × (get r'.entries e.ref ≡ some e)
unfolding store_entry store_checked
store_entry-ok e id r r' has_id normal h = store_backend-ok e id r r' (ground arith)

store_new-ok :
    (ref id : Text) (kind : Kind) (details : Details) (r r' : Registry)
    → internal_id id ≡ ok id
    → store_new ref kind existing (some id) false details r ≡ (ok tt, r')
    → IsRegistered id ref kind r'
unfolding store_new build_entry
store_new-ok ref id kind details r r' normal h =
    let e : Entry = record {
      ref = ref;
      object_kind = kind;
      status = existing;
      label = details.label;
      backend_id = some id;
      graph_scope = r.graph_scope;
      session_scope = r.run_scope;
      display_label = details.display_label;
      aliases = details.aliases;
      is_owner = false;
    } in
    let (leads, stands) = store_entry-ok e id r r' refl normal (ground arith) in
    record { leads = leads; entry = e; stands = stands; named = refl; kind_kept = refl }

add_existing-ok :
    (kind : Kind) (details : Details) (id ref : Text) (r r' : Registry)
    → internal_id id ≡ ok id
    → add_existing kind details id r ≡ (ok ref, r')
    → IsRegistered id ref kind r'
unfolding add_existing
add_existing-ok kind details id ref r r' normal h =
    let (alias, t, given, rest) =
      bind-ok (on_mapper (alias_for id (prefix_for kind))) _ r ref r' h in
    let (u, t', stored, last) =
      bind-ok (store_new alias kind existing (some id) false details) _ t ref r' rest in
    subst₂ (λ a s. IsRegistered id a kind s) (ground arith) (ground arith)
      (store_new-ok alias id kind details t t' normal stored)

put_existing-ok :
    (kind : Kind) (details : Details) (id ref : Text) (r r' : Registry)
    → IsIndexed r
    → internal_id id ≡ ok id
    → put_existing kind details id r ≡ (ok ref, r')
    → IsRegistered id ref kind r'
unfolding put_existing reuse_existing
put_existing-ok kind details id ref r r' indexed normal h =
    elim (Bool-cases (holds (text_discrete id owner_alias))) [
      | inl own ↦ absurd (ground arith)
      | inr other ↦ elim (Option-cases (get r.internal_to_ref id)) [
        | inl absent ↦ add_existing-ok kind details id ref r r' normal (ground arith)
        | inr (old, known) ↦ elim (Option-cases (get r.entries old)) [
          | inl dangling ↦ absurd (ground arith)
          | inr (e, at) ↦ record {
            leads = ground (arith, indexed.keyed old e at);
            entry = e;
            stands = ground (arith, indexed.keyed old e at);
            named = ground arith;
            kind_kept = ground arith;
          }
        ]
      ]
    ]

reserved_owner : (x : Text) → internal_id owner_alias ≢ ok x
unfolding internal_id strip text_discrete
reserved_owner x h = cc

internal_id-ne-owner :
    (s id : Text) → internal_id s ≡ ok id → holds (text_discrete id owner_alias) ≡ false
internal_id-ne-owner s id h = not_owner (text_discrete id owner_alias)
  where
    not_owner : (d : Dec (id ≡ owner_alias)) → holds d ≡ false
    not_owner (yes p) =
        absurd (reserved_owner id (ap internal_id (sym p) ∙ internal_id_idem s id h))
    not_owner (no p) = refl

put_existing-IsRegistered :
    (kind : Kind) (details : Details) (id ref : Text) (r : Registry)
    → holds (text_discrete id owner_alias) ≡ false
    → IsRegistered id ref kind r
    → put_existing kind details id r ≡ (ok ref, r)
unfolding put_existing reuse_existing
put_existing-IsRegistered kind details id ref r other g =
    ground (arith, g.leads, g.stands, g.named, g.kind_kept)

-- In a registry whose index is consistent: a registered object is found under the reference that
-- the call returned, and a second registration of the same kind, whatever else it says, returns
-- the same reference and changes nothing.
pub register_existing-again :
    (kind : Kind) (details details' : Details) (internal ref : Text) (r r' : Registry)
    → IsIndexed r
    → register_existing internal kind details r ≡ (ok ref, r')
    → (alias_for_internal r' internal ≡ ok ref)
      × (register_existing internal kind details' r' ≡ (ok ref, r'))
unfolding register_existing alias_for_internal put_existing reuse_existing
register_existing-again kind details details' internal ref r r' indexed h =
    elim (Result-cases (internal_id internal)) [
      | inr (error, given) ↦ absurd (ground arith)
      | inl (id, given) ↦
          let g =
            put_existing-ok kind details id ref r r' indexed (internal_id_idem internal id given)
              (ground arith) in
          (
            ground (arith, g.leads),
            rw given (
                put_existing-IsRegistered kind details' id ref r'
                  (internal_id-ne-owner internal id given) g),
          )
    ]
