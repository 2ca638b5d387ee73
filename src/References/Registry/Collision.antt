-- ===== src/References/Registry/Collision.antt =====
-- `register_local` numbers from the entries and `alias_for` from the mapper's counters, which know
-- nothing of each other: an object can be given the number of a local reference, and then its own
-- registration raises, and raises again. Other objects get other numbers.
use my_digital_brain.Base.{
  ℕ, ◌<◌, Bool-cases, Result, strip-strip, ◌+◌, ◌≡◌, refl, ◌≢◌, ◌⊎◌, false, none, some, arith, Text,
  get, ok, [], inl, inr, get-put_self, holds, true, text_discrete, List, ◌∷◌,
}
use my_digital_brain.References.Entry.{
  owner_alias, is_filled, Kind, existing, Entry, node, prefix_for, build_entry,
}
use my_digital_brain.References.Mapper.{
  empty_mapper, alias_for, allocate, normalize_internal_id, upper, numbered, counter,
}
use my_digital_brain.References.Registry.{
  required_scope, init, on_mapper, internal_id, Registry, conflicts, store_entry, Error,
}
use my_digital_brain.References.Registry.Allocation.{local_ref, local_entry, register_local-fresh}
use my_digital_brain.References.Registry.Register.{
  register_existing, register_local, next_number, put_existing, Details, store_new, add_existing,
}

-- The reference that the mapper gives the object, or would give it next, belongs to an entry
-- without a backend id, and the object has no reference.
pub record IsBlocked (kind : Kind) (id : Text) (r : Registry) : Type 0 where
  pub unregistered : get r.internal_to_ref id ≡ none
  pub alias : Text
  pub given :
      ((get r.mapper.id_to_alias id ≡ some alias) × (alias ≢ []))
      ⊎ ((get r.mapper.id_to_alias id ≡ none)
          × (alias ≡ numbered (prefix_for kind) (counter r.mapper.counters (prefix_for kind) + 1)))
  pub entry : Entry
  pub stands : get r.entries alias ≡ some entry
  pub unbound : entry.backend_id ≡ none

module _ (a id : Text) (kind : Kind) (details : Details) (r : Registry) (e : Entry)
    (at : get r.entries a ≡ some e) (unbound : e.backend_id ≡ none) where
  refused :
      ((store_new a kind existing (some id) false details r).1 ≡ r)
      × ((store_new a kind existing (some id) false details r).0 ≢ ok tt)
  unfolding store_new build_entry store_entry conflicts
  refused = (ground arith, ground arith)

upper-prefix_for : (kind : Kind) → upper (prefix_for kind) ≡ prefix_for kind
unfolding upper prefix_for
upper-prefix_for node = refl
upper-prefix_for kind = refl

-- `_internal_id` and the mapper normalise alike, and a normalised id stays.
normal_of_internal_id : (s id : Text) → internal_id s ≡ ok id → normalize_internal_id id ≡ ok id
unfolding internal_id normalize_internal_id
normal_of_internal_id s id h = ground (arith, strip-strip s)

pub internal_id_idem : (s id : Text) → internal_id s ≡ ok id → internal_id id ≡ ok id
unfolding internal_id
internal_id_idem s id h = ground (arith, strip-strip s)

module _ (kind : Kind) (id : Text) (r : Registry) (normal : normalize_internal_id id ≡ ok id) where
  -- The mapper's answer for an object that it knows.
  alias_for_known :
      (a : Text)
      → get r.mapper.id_to_alias id ≡ some a
      → a ≢ []
      → on_mapper (alias_for id (prefix_for kind)) r ≡ (ok a, r)
  unfolding on_mapper alias_for
  alias_for_known a known filled = ground arith

  alias_for_new :
      get r.mapper.id_to_alias id ≡ none
      → on_mapper (alias_for id (prefix_for kind)) r ≡ (
        ok (numbered (prefix_for kind) (counter r.mapper.counters (prefix_for kind) + 1)),
        record r { mapper = (allocate id (prefix_for kind) r.mapper).1 },
      )
  unfolding on_mapper alias_for allocate
  alias_for_new unknown = ground (arith, upper-prefix_for kind)

module _ (kind : Kind) (details : Details) (id : Text) (r : Registry) where
  module _ (a : Text) (r' : Registry) (e : Entry)
      (given : on_mapper (alias_for id (prefix_for kind)) r ≡ (ok a, r'))
      (at : get r'.entries a ≡ some e) (unbound : e.backend_id ≡ none) where
    add_existing_refused :
        ((add_existing kind details id r).1 ≡ r')
        × ((ref : Text) → (add_existing kind details id r).0 ≢ ok ref)
    unfolding add_existing
    add_existing_refused =
        let (same, fails) = refused a id kind details r' e at unbound in
        (ground (arith, given, same), λ ref. ground (arith, given, fails))

    add_existing-IsBlocked :
        IsBlocked kind id r' → IsBlocked kind id (add_existing kind details id r).1
    add_existing-IsBlocked h = rw (add_existing_refused.0) h

filled_of_numbered : (kind : Kind) (n : ℕ) → numbered (prefix_for kind) n ≢ []
unfolding numbered prefix_for
filled_of_numbered node n = ground arith
filled_of_numbered kind n = ground arith

-- One more try: the mapper answers with the alias that blocks, and the object stays blocked.
IsBlocked-step :
    (kind : Kind) (id : Text) (r : Registry)
    → normalize_internal_id id ≡ ok id
    → (b : IsBlocked kind id r)
    → (r' : Registry) × (on_mapper (alias_for id (prefix_for kind)) r ≡ (ok b.alias, r'))
      × (get r'.entries b.alias ≡ some b.entry)
      × IsBlocked kind id r'
unfolding allocate
IsBlocked-step kind id r normal b = elim b.given [
  | inl (known, filled) ↦ (r, alias_for_known kind id r normal b.alias known filled, b.stands, b)
  | inr (unknown, next) ↦ (
    record r { mapper = (allocate id (prefix_for kind) r.mapper).1 },
    rw next (alias_for_new kind id r normal unknown),
    b.stands,
    record {
      unregistered = b.unregistered;
      alias = b.alias;
      given =
          inl
            (rw next (get-put_self r.mapper.id_to_alias id _), rw next (filled_of_numbered kind _));
      entry = b.entry;
      stands = b.stands;
      unbound = b.unbound;
    },
  )
]

-- The result and the state of a failed registration of the object.
IsRefused : Kind → Text → Result Error Text × Registry → Type 0
IsRefused kind id outcome = ((ref : Text) → outcome.0 ≢ ok ref) × IsBlocked kind id outcome.1

put_existing-IsRefused :
    (kind : Kind) (details : Details) (id : Text) (r : Registry)
    → normalize_internal_id id ≡ ok id
    → IsBlocked kind id r
    → IsRefused kind id (put_existing kind details id r)
unfolding IsRefused put_existing
put_existing-IsRefused kind details id r normal b =
    elim (Bool-cases (holds (text_discrete id owner_alias))) [
      | inl own ↦ rw (own, put_existing) (λ ref. cc, b)
      | inr other ↦
          let (r', given, at, b') = IsBlocked-step kind id r normal b in
          rw (other, b.unregistered, put_existing)
            (
              (add_existing_refused kind details id r b.alias r' b.entry given at b.unbound).1,
              add_existing-IsBlocked kind details id r b.alias r' b.entry given at b.unbound b',
            )
    ]

register_existing-IsRefused :
    (kind : Kind) (details : Details) (internal id : Text) (r : Registry)
    → internal_id internal ≡ ok id
    → IsBlocked kind id r
    → IsRefused kind id (register_existing internal kind details r)
unfolding register_existing IsRefused
register_existing-IsRefused kind details internal id r given b =
    rw given (put_existing-IsRefused kind details id r (normal_of_internal_id internal id given) b)

-- The registry after tries to register one object, each with its details.
abbrev pub retried : Text → Kind → List Details → Registry → Registry
retried internal kind [] r = r
retried internal kind (details ∷ tries) r =
    retried internal kind tries (register_existing internal kind details r).1

-- The registration of a blocked object raises, however often and with whatever details it is tried.
pub blocked_forever :
    (kind : Kind) (details : Details) (internal id : Text) (tries : List Details) (r : Registry)
    (ref : Text)
    → internal_id internal ≡ ok id
    → IsBlocked kind id r
    → (register_existing internal kind details (retried internal kind tries r)).0 ≢ ok ref
unfolding IsRefused
blocked_forever kind details internal id [] r ref given b =
    (register_existing-IsRefused kind details internal id r given b).0 ref
blocked_forever kind details internal id (first ∷ tries) r ref given b =
    blocked_forever kind details internal id tries (register_existing internal kind first r).1 ref
      given (register_existing-IsRefused kind first internal id r given b).1

init_empty :
    (graph run : Text) (r : Registry)
    → init graph run ≡ ok r
    → (r.entries ≡ [])
      × (r.mapper ≡ empty_mapper)
      × (r.internal_to_ref ≡ [])
      × (is_filled r.graph_scope ≡ true)
      × (is_filled r.run_scope ≡ true)
unfolding init required_scope is_filled
init_empty graph run r h = (ground arith, ground arith, ground arith, ground arith, ground arith)

-- In a new registry a local reference blocks whatever object of its kind comes next.
local-IsBlocked :
    (graph run : Text) (r : Registry) (kind : Kind) (label id : Text)
    → init graph run ≡ ok r
    → is_filled label ≡ true
    → IsBlocked kind id (register_local kind label none r).1
unfolding get counter next_number
local-IsBlocked graph run r kind label id new labelled =
    let (entries, mapper, index, graph_filled, run_filled) = init_empty graph run r new in
    let room : next_number (prefix_for kind) r.entries < 1000000 = rw entries (omega arith) in
    let (free, made) =
      register_local-fresh r kind label none labelled graph_filled run_filled room in
    rw made (record {
      unregistered = rw index refl;
      alias = local_ref kind r;
      given = inr (rw mapper refl, rw (entries, mapper) refl);
      entry = local_entry r kind label none;
      stands = get-put_self r.entries (local_ref kind r) (local_entry r kind label none);
      unbound = refl;
    })

-- In a new run, after a first local reference of a kind was made with a label, the next call, to
-- register an object of that kind with a valid id, raises, and so does every further try for the same
-- object that follows it, whatever details each gives.
pub existing_after_local :
    (graph run : Text) (r : Registry) (kind : Kind) (label : Text) (details : Details)
    (internal id : Text) (tries : List Details) (ref : Text)
    → init graph run ≡ ok r
    → is_filled label ≡ true
    → internal_id internal ≡ ok id
    → (register_existing internal kind details
        (retried internal kind tries (register_local kind label none r).1)).0
      ≢ ok ref
existing_after_local graph run r kind label details internal id tries ref new labelled given =
    blocked_forever kind details internal id tries (register_local kind label none r).1 ref given
      (local-IsBlocked graph run r kind label id new labelled)
