-- ===== src/Refs/Context/Resolve.antt =====
-- A backend object that is registered is found by its reference, and its reference by the object.
use mathlib.Core.Path.{subst}
use my_digital_brain.Base.{
  ◌+◌, ◌≡◌, refl, ap, ◌∙◌, inl, inr, some, arith, Text, get, get-put_self, ok, Option-cases,
  Result-cases, false,
}
use my_digital_brain.Refs.Entry.{
  ObjectKind, RefEntry, object_kind_discrete, build_ref_entry, validate_ref_for_kind,
}
use my_digital_brain.Refs.Context.{
  RefContext, Facts, write_entry, add_entry, add_new, allocate_ref, add_hydrated, entry_of,
  required_backend_id, ref_for_backend_id, get_entry, reuse, register_id, register_existing,
  is_unexpected, bound_id, alias_for_internal, resolve, numbered_ref, count, counter_key, existing,
}
use my_digital_brain.Refs.Context.Unique.{IsUnique, find-get}
use my_digital_brain.Refs.Context.Calls.{register_id-IsUnique, built}

-- The reference has an entry of the kind, for the object.
pub record IsBound (c : RefContext) (ref id : Text) (kind : ObjectKind) : Type 0 where
  pub entry : RefEntry
  pub at : get c.entries ref ≡ some entry
  pub bound : entry.backend_id ≡ some id
  pub same_kind : entry.object_kind ≡ kind

add_entry-ok :
    (e : RefEntry) (c c' : RefContext) (ref : Text)
    → add_entry e c ≡ (ok ref, c')
    → (ref ≡ e.ref) × (get c'.entries ref ≡ some e)
unfolding add_entry write_entry
add_entry-ok e c c' ref h = elim (Option-cases (get c.entries e.ref)) [
  | inr (taken, at) ↦ absurd (ground arith)
  | inl new ↦ elim (Result-cases (validate_ref_for_kind e.ref e.object_kind)) [
    | inr (error, v) ↦ absurd (ground arith)
    | inl (u, v) ↦ (ground arith, ground (arith, get-put_self c.entries e.ref e))
  ]
]

add_new-ok :
    (e : RefEntry) (c c' : RefContext) (ref : Text)
    → add_new e c ≡ (ok ref, c')
    → (ref ≡ e.ref) × (get c'.entries ref ≡ some e)
unfolding add_new
add_new-ok e c c' ref h = elim (Result-cases (build_ref_entry e)) [
  | inr (error, b) ↦ absurd (ground arith)
  | inl (e', b) ↦ add_entry-ok e c c' ref (ap (λ x. add_entry x c) (built e e' b) ∙ ground arith)
]

hydrated-IsBound :
    (kind : ObjectKind) (id : Text) (facts : Facts) (c c' : RefContext) (ref : Text)
    → add_hydrated kind (some id) facts c ≡ (ok ref, c')
    → IsBound c' ref id kind
unfolding add_hydrated allocate_ref entry_of
hydrated-IsBound kind id facts c c' ref h =
    let (same, at) = add_new-ok _ _ c' ref h in
    record {
      entry =
          entry_of (numbered_ref kind false (count c.counters (counter_key kind false) + 1)) kind
            (some id) existing facts;
      at = ground (arith, at, same);
      bound = refl;
      same_kind = refl;
    }

reused-IsBound :
    (kind : ObjectKind) (id : Text) (c c' : RefContext) (ref known : Text)
    → IsUnique c
    → ref_for_backend_id c id ≡ some known
    → reuse id kind known c ≡ (ok ref, c')
    → IsBound c' ref id kind
unfolding reuse ref_for_backend_id get_entry
reused-IsBound kind id c c' ref known h found r =
    let (e, at, b) = find-get c.entries id known h.keyed found in
    elim (object_kind_discrete e.object_kind kind) [
      | yes same ↦ record { entry = e; at = ground arith; bound = b; same_kind = same }
      | no other ↦ absurd (ground arith)
    ]

registered-IsBound :
    (kind : ObjectKind) (id : Text) (facts : Facts) (c c' : RefContext) (ref : Text)
    → IsUnique c
    → register_id kind facts id c ≡ (ok ref, c')
    → IsBound c' ref id kind
unfolding register_id
registered-IsBound kind id facts c c' ref h r = elim (Option-cases (ref_for_backend_id c id)) [
  | inl new ↦ hydrated-IsBound kind id facts c c' ref (ground arith)
  | inr (known, found) ↦ reused-IsBound kind id c c' ref known h found (ground arith)
]

resolved :
    (c : RefContext) (ref value id : Text) (kind : ObjectKind)
    → IsUnique c
    → required_backend_id value ≡ ok id
    → IsBound c ref id kind
    → (alias_for_internal c value ≡ ok ref) × (resolve c ref (some kind) ≡ ok id)
unfolding alias_for_internal resolve get_entry is_unexpected bound_id required_backend_id
resolved c ref value id kind h v b =
    let found = h.found ref id b.entry b.at b.bound in
    (ground (arith, found), ground (arith, b.at, b.bound, b.same_kind))

-- When a context with one reference for each object registers a backend object, the object leads to
-- the reference that is returned, and the reference resolves, for its kind, to the object's id,
-- stripped.
pub register_existing-resolve :
    (backend_id id ref : Text) (kind : ObjectKind) (facts : Facts) (c c' : RefContext)
    → IsUnique c
    → required_backend_id backend_id ≡ ok id
    → register_existing backend_id kind facts c ≡ (ok ref, c')
    → (alias_for_internal c' backend_id ≡ ok ref) × (resolve c' ref (some kind) ≡ ok id)
unfolding register_existing
register_existing-resolve backend_id id ref kind facts c c' h v r =
    let done : register_id kind facts id c ≡ (ok ref, c') = ground arith in
    resolved c' ref backend_id id kind
      (subst IsUnique (ap (λ x. x.1) done) (register_id-IsUnique kind facts id c h).at) v
      (registered-IsBound kind id facts c c' ref h done)
