-- ===== src/Refs/Context/Calls.antt =====
-- Sequences of calls on one context.
use mathlib.Core.Path.{subst}
use my_digital_brain.Base.{
  lookup, ◌≡◌, refl, ap, sym, Bool, true, false, inl, inr, Option, none, some, List, [], ◌∷◌, arith,
  Text, get, empty, ok, Kept, kept, kept-if, Keeps, Keeps-bind, Keeps-lift, Keeps-pure, Keeps-raise,
  Option-cases, Result-cases, Bool-cases, Table, codes, kept-bind,
}
use my_digital_brain.Refs.Entry.{
  ObjectKind, Resolution, RefEntry, validate_ref_for_kind, build_ref_entry,
}
use my_digital_brain.Refs.Context.{
  RefContext, Facts, entry_of, allocate_ref, write_entry, add_entry, add_new, add_hydrated,
  add_proposed, required_backend_id, ref_for_backend_id, get_entry, reuse, register_id,
  register_existing, put_proposed, register_proposed, is_elsewhere, bind_entry, resolve_backend_id,
  put_owner, bind_owner, merge_delta, owner_ref, merge_entries, is_person, clashes, existing,
}
use my_digital_brain.Refs.Context.Unique.{IsUnique, IsFree, Keyed-get, write_entry-IsUnique}

-- The calls of the methods that change a context.
pub data RefCall : Type 0 where
  existing_object : Text → ObjectKind → Facts → RefCall
  new_object : ObjectKind → Facts → RefCall
  planned_object : Text → ObjectKind → Facts → RefCall
  resolution : Text → Text → Resolution → RefCall
  allocation : ObjectKind → Bool → RefCall
  owner : Text → Option Text → List Text → RefCall
  hydrated_object : ObjectKind → Option Text → Facts → RefCall
  ready_entry : RefEntry → RefCall
  delta : RefContext → RefCall

-- The context that a call leaves, also when it raises.
unfoldable pub call : RefCall → RefContext → RefContext
call (existing_object backend_id kind facts) c = (register_existing backend_id kind facts c).1
call (new_object kind facts) c = (add_proposed kind facts c).1
call (planned_object ref kind facts) c = (register_proposed ref kind facts c).1
call (resolution ref backend_id status) c = (resolve_backend_id ref backend_id status c).1
call (allocation kind is_new) c = (allocate_ref kind is_new c).1
call (owner backend_id name aliases) c = (bind_owner backend_id name aliases c).1
call (hydrated_object kind backend_id facts) c = (add_hydrated kind backend_id facts c).1
call (ready_entry e) c = (add_entry e c).1
call (delta other) c = (merge_delta other c).1

-- The context after calls of which any may raise.
unfoldable pub after : List RefCall → RefContext → RefContext
unfolding call
after [] c = c
after (k ∷ calls) c = after calls (call k c)

-- The entries of a delta stand under their own references, and their backend ids are free, each
-- after the entries before it.
abbrev pub IsFreeDelta : Table RefEntry → RefContext → Type 0
IsFreeDelta [] c = Unit
IsFreeDelta ((ref, e) ∷ entries) c =
    (e.ref ≡ ref) × IsFree c ref e.backend_id × IsFreeDelta entries (write_entry ref e c).1

-- No entry has the backend id.
abbrev pub IsUnbound : RefContext → Option Text → Type 0
IsUnbound c none = Unit
IsUnbound c (some id) = ref_for_backend_id c id ≡ none

-- What a call must observe. The methods of the last clause check the backend id themselves or write
-- none; for the others the id must be free: no other reference has it.
abbrev pub IsSafeCall : RefCall → RefContext → Type 0
IsSafeCall (owner backend_id name aliases) c =
    (id : Text) → required_backend_id backend_id ≡ ok id → IsFree c owner_ref (some id)
IsSafeCall (hydrated_object kind backend_id facts) c = IsUnbound c backend_id
IsSafeCall (ready_entry e) c = IsFree c e.ref e.backend_id
IsSafeCall (delta other) c = IsFreeDelta other.entries c
IsSafeCall _ c = Unit

-- Every call observes it at its turn.
abbrev pub IsSafe : List RefCall → RefContext → Type 0
IsSafe [] c = Unit
IsSafe (k ∷ calls) c = IsSafeCall k c × IsSafe calls (call k c)

ruleset writes = (kept-if, kept, Keeps-bind, Keeps-lift, Keeps-pure, Keeps-raise)

-- A new entry is added where its reference is new, so only its backend id matters.
add_entry-IsUnique :
    (e : RefEntry) (c : RefContext)
    → IsUnique c
    → IsFree c e.ref e.backend_id
    → Kept IsUnique (add_entry e c)
unfolding add_entry write_entry
add_entry-IsUnique e c h free = elim (Option-cases (get c.entries e.ref)) [
  | inr (taken, at) ↦ rw (at, add_entry) (record { at = h })
  | inl new ↦ elim (Result-cases (validate_ref_for_kind e.ref e.object_kind)) [
    | inr (error, v) ↦ rw (new, add_entry, v) (record { at = h })
    | inl (u, v) ↦
        rw (new, add_entry, v) (record { at = (write_entry-IsUnique e.ref e c h refl free).at })
  ]
]

pub built : (e e' : RefEntry) → build_ref_entry e ≡ ok e' → e ≡ e'
unfolding build_ref_entry
built e e' h = elim (Result-cases (validate_ref_for_kind e.ref e.object_kind)) [
  | inl (u, v) ↦ ground arith
  | inr (error, v) ↦ absurd (ground arith)
]

add_new-IsUnique :
    (e : RefEntry) (c : RefContext)
    → IsUnique c
    → IsFree c e.ref e.backend_id
    → Kept IsUnique (add_new e c)
unfolding add_new
add_new-IsUnique e c h free = elim (Result-cases (build_ref_entry e)) [
  | inr (error, b) ↦ rw (b, add_new) (record { at = h })
  | inl (e', b) ↦
      rw (b, add_new)
        (subst (λ x. Kept IsUnique (add_entry x c)) (built e e' b) (add_entry-IsUnique e c h free))
]

-- Counters do not matter.
allocated :
    (kind : ObjectKind) (is_new : Bool) (c : RefContext)
    → IsUnique c
    → IsUnique (allocate_ref kind is_new c).1
unfolding allocate_ref ref_for_backend_id
allocated kind is_new c h = record { keyed = h.keyed; found = h.found }

add_hydrated-IsUnique :
    (kind : ObjectKind) (id : Text) (facts : Facts) (c : RefContext)
    → IsUnique c
    → ref_for_backend_id c id ≡ none
    → Kept IsUnique (add_hydrated kind (some id) facts c)
unfolding add_hydrated allocate_ref ref_for_backend_id is_elsewhere entry_of
add_hydrated-IsUnique kind id facts c h new =
    add_new-IsUnique _ _ (allocated kind false c h) (rw new refl)

add_proposed-IsUnique :
    (kind : ObjectKind) (facts : Facts) → Keeps IsUnique (add_proposed kind facts)
unfolding add_proposed allocate_ref entry_of
add_proposed-IsUnique kind facts c h = add_new-IsUnique _ _ (allocated kind true c h) tt

reuse-IsUnique : (id : Text) (kind : ObjectKind) (ref : Text) → Keeps IsUnique (reuse id kind ref)
unfolding reuse
reuse-IsUnique id kind ref c h = elim (Result-cases (get_entry c ref)) [
  | inl (e, at) ↦ rw (at, reuse) (search (writes, h))
  | inr (error, at) ↦ rw (at, reuse) (record { at = h })
]

pub register_id-IsUnique :
    (kind : ObjectKind) (facts : Facts) (id : Text) → Keeps IsUnique (register_id kind facts id)
unfolding register_id
register_id-IsUnique kind facts id c h = elim (Option-cases (ref_for_backend_id c id)) [
  | inl new ↦ rw (new, register_id) (add_hydrated-IsUnique kind id facts c h new)
  | inr (ref, at) ↦ rw (at, register_id) (reuse-IsUnique id kind ref c h)
]

put_proposed-IsUnique : (e : RefEntry) → e.backend_id ≡ none → Keeps IsUnique (put_proposed e)
unfolding put_proposed
put_proposed-IsUnique e unbound c h = elim (Option-cases (get c.entries e.ref)) [
  | inl new ↦
      rw (new, put_proposed) (add_entry-IsUnique e c h (subst (IsFree c e.ref) (sym unbound) tt))
  | inr (current, at) ↦ rw (at, put_proposed) (search (writes, h))
]

register_proposed-IsUnique :
    (ref : Text) (kind : ObjectKind) (facts : Facts)
    → Keeps IsUnique (register_proposed ref kind facts)
unfolding register_proposed entry_of
register_proposed-IsUnique ref kind facts c h =
    Keeps-lift IsUnique _ put_proposed
      (λ e b. put_proposed-IsUnique e (ap (λ (x : RefEntry). x.backend_id) (sym (built _ e b)))) c h

bind_entry-IsUnique :
    (ref id : Text) (e : RefEntry) (status : Resolution) (c : RefContext)
    → IsUnique c
    → e.ref ≡ ref
    → Kept IsUnique (bind_entry ref e status id c)
unfolding bind_entry write_entry
bind_entry-IsUnique ref id e status c h same =
    elim (Bool-cases (is_elsewhere (ref_for_backend_id c id) ref)) [
      | inl taken ↦ rw (taken, bind_entry) (record { at = h })
      | inr free ↦
          rw (free, bind_entry)
            (record {
              at =
                  (write_entry-IsUnique ref
                    (record e { backend_id = some id; resolution_status = status }) c h same
                    free).at;
            })
    ]

pub get_entry-get :
    (c : RefContext) (ref : Text) (e : RefEntry)
    → get_entry c ref ≡ ok e
    → get c.entries ref ≡ some e
unfolding get_entry
get_entry-get c ref e h = elim (Option-cases (get c.entries ref)) [
  | inl absent ↦ absurd (ground arith)
  | inr (e', at) ↦ ground arith
]

resolve_backend_id-IsUnique :
    (ref backend_id : Text) (status : Resolution)
    → Keeps IsUnique (resolve_backend_id ref backend_id status)
unfolding resolve_backend_id
resolve_backend_id-IsUnique ref backend_id status c h = elim (Result-cases (get_entry c ref)) [
  | inr (error, at) ↦ rw (at, resolve_backend_id) (record { at = h })
  | inl (e, at) ↦ elim (Result-cases (required_backend_id backend_id)) [
    | inr (error, v) ↦ rw (at, resolve_backend_id, v) (record { at = h })
    | inl (id, v) ↦
        rw (at, resolve_backend_id, v)
          (bind_entry-IsUnique ref id e status c h
            (Keyed-get c.entries ref e h.keyed (get_entry-get c ref e at)))
  ]
]

put_owner-IsUnique :
    (name : Option Text) (aliases : List Text) (id : Text) (c : RefContext)
    → IsUnique c
    → IsFree c owner_ref (some id)
    → Kept IsUnique (put_owner name aliases id c)
unfolding put_owner entry_of
put_owner-IsUnique name aliases id c h free = elim (Option-cases (get c.entries owner_ref)) [
  | inl new ↦ rw (new, put_owner) (add_new-IsUnique _ c h free)
  | inr (current, at) ↦ elim (Bool-cases (is_person current)) [
    | inr other ↦ rw (at, put_owner, other) (record { at = h })
    | inl person ↦
        rw (at, put_owner, person)
          (record {
            at =
                (write_entry-IsUnique owner_ref
                  (record current {
                    backend_id = some id;
                    name = name;
                    aliases = aliases;
                    source = some (codes "request_owner");
                    resolution_status = existing;
                  })
                  c h (Keyed-get c.entries owner_ref current h.keyed at) free).at;
          })
  ]
]

bind_owner-IsUnique :
    (backend_id : Text) (name : Option Text) (aliases : List Text) (c : RefContext)
    → IsUnique c
    → IsSafeCall (owner backend_id name aliases) c
    → IsUnique (bind_owner backend_id name aliases c).1
unfolding bind_owner
bind_owner-IsUnique backend_id name aliases c h safe =
    elim (Result-cases (required_backend_id backend_id)) [
      | inr (error, v) ↦ rw (v, bind_owner) h
      | inl (id, v) ↦ rw (v, bind_owner) (put_owner-IsUnique name aliases id c h (safe id v)).at
    ]

merge_entries-IsUnique :
    (entries : Table RefEntry) (c : RefContext)
    → IsUnique c
    → IsFreeDelta entries c
    → Kept IsUnique (merge_entries entries c)
unfolding merge_entries
merge_entries-IsUnique [] c h free = record { at = h }
merge_entries-IsUnique ((ref, e) ∷ entries) c h free =
    elim (Bool-cases (clashes (get c.entries ref) e)) [
      | inl clash ↦ rw (clash, merge_entries) (record { at = h })
      | inr fits ↦
          rw (fits, merge_entries)
            (merge_entries-IsUnique entries (write_entry ref e c).1
              (write_entry-IsUnique ref e c h free.0 free.1).at free.2)
    ]

merge_delta-IsUnique :
    (other c : RefContext)
    → IsUnique c
    → IsFreeDelta other.entries c
    → IsUnique (merge_delta other c).1
unfolding merge_delta ref_for_backend_id
merge_delta-IsUnique other c h free =
    (kept-bind IsUnique (merge_entries other.entries) _ c
      (merge_entries-IsUnique other.entries c h free)
      (λ _ c' k. record { at = record { keyed = k.keyed; found = k.found } })).at

hydrated-IsUnique :
    (kind : ObjectKind) (backend_id : Option Text) (facts : Facts) (c : RefContext)
    → IsUnique c
    → IsUnbound c backend_id
    → IsUnique (add_hydrated kind backend_id facts c).1
unfolding add_hydrated allocate_ref entry_of
hydrated-IsUnique kind (some id) facts c h new = (add_hydrated-IsUnique kind id facts c h new).at
hydrated-IsUnique kind none facts c h new = (add_new-IsUnique _ _ (allocated kind false c h) tt).at

call-IsUnique : (k : RefCall) (c : RefContext) → IsUnique c → IsSafeCall k c → IsUnique (call k c)
unfolding call register_existing
call-IsUnique (existing_object backend_id kind facts) c h safe =
    (Keeps-lift IsUnique (required_backend_id backend_id) _
      (λ id _. register_id-IsUnique kind facts id) c h).at
call-IsUnique (new_object kind facts) c h safe = (add_proposed-IsUnique kind facts c h).at
call-IsUnique (planned_object ref kind facts) c h safe =
    (register_proposed-IsUnique ref kind facts c h).at
call-IsUnique (resolution ref backend_id status) c h safe =
    (resolve_backend_id-IsUnique ref backend_id status c h).at
call-IsUnique (allocation kind is_new) c h safe = allocated kind is_new c h
call-IsUnique (owner backend_id name aliases) c h safe =
    bind_owner-IsUnique backend_id name aliases c h safe
call-IsUnique (hydrated_object kind backend_id facts) c h safe =
    hydrated-IsUnique kind backend_id facts c h safe
call-IsUnique (ready_entry e) c h safe = (add_entry-IsUnique e c h safe).at
call-IsUnique (delta other) c h safe = merge_delta-IsUnique other c h safe

after-IsUnique :
    (calls : List RefCall) (c : RefContext) → IsUnique c → IsSafe calls c → IsUnique (after calls c)
unfolding after
after-IsUnique [] c h safe = h
after-IsUnique (k ∷ calls) c h safe =
    after-IsUnique calls (call k c) (call-IsUnique k c h safe.0) safe.1

-- The context of a new session.
abbrev pub new_context : Option Text → RefContext
new_context session_id = record { session_id = session_id; entries = empty; counters = empty }

pub new-IsUnique : (session_id : Option Text) → IsUnique (new_context session_id)
unfolding get lookup
new-IsUnique session_id = record { keyed = tt; found = λ ref id e at b. absurd (ground arith) }

-- After any calls on a new context, returning or raising, two entries with the same backend id stand
-- under the same reference, provided that each call that does not check the backend id itself, of
-- `bind_owner`, `add_hydrated`, `add_entry` and `merge_delta`, was given one that no other reference
-- had.
pub one_ref_per_backend_id :
    (session_id : Option Text) (calls : List RefCall) (ref ref' id : Text) (e e' : RefEntry)
    → IsSafe calls (new_context session_id)
    → get (after calls (new_context session_id)).entries ref ≡ some e
    → get (after calls (new_context session_id)).entries ref' ≡ some e'
    → e.backend_id ≡ some id
    → e'.backend_id ≡ some id
    → ref ≡ ref'
one_ref_per_backend_id session_id calls ref ref' id e e' safe at at' b b' =
    let h = after-IsUnique calls (new_context session_id) (new-IsUnique session_id) safe in
    ground (arith, h.found ref id e at b, h.found ref' id e' at' b')
