-- ===== src/References/Registry/Stability.antt =====
-- What a run has handed out stays: no later call changes an entry or moves an object to another
-- reference.
use my_digital_brain.Base.{
  ◌≡◌, false, Option, none, some, List, arith, Text, get, get-put, Exec, Kept, kept, Keeps,
  Keeps-bind, kept-if, Keeps-lift, Keeps-pure, Keeps-raise, get-put_self, ok, Result-cases, inl,
  inr,
}
use my_digital_brain.References.Entry.{Entry}
use my_digital_brain.References.Mapper.{Mapper, register_alias}
use my_digital_brain.References.Errors.{Error}
use my_digital_brain.References.Registry.{
  Registry, on_mapper, internal_id, elsewhere, conflicts, keep, index, store_backend, store_checked,
  store_entry,
}
use my_digital_brain.References.Registry.Read.{alias_for_internal, entry_for}
use my_digital_brain.References.Registry.Register.{bind}
use my_digital_brain.References.Registry.Calls.{Call, after, after-P}

ruleset writes = (kept-if, kept, Keeps-bind, Keeps-lift, Keeps-pure, Keeps-raise)

module _ (id ref : Text) where
  LeadsTo : Registry → Type 0
  LeadsTo r = get r.internal_to_ref id ≡ some ref

  index-LeadsTo :
      (id' ref' : Text) (r : Registry)
      → elsewhere (get r.internal_to_ref id') ref' ≡ false
      → LeadsTo r
      → LeadsTo (index id' ref' r).1
  unfolding LeadsTo index elsewhere
  index-LeadsTo id' ref' r free h = ground (arith, get-put r.internal_to_ref id' id ref')

  on_mapper-LeadsTo : (A : Type 0) (m : Exec Mapper Error A) → Keeps LeadsTo (on_mapper m)
  unfolding LeadsTo on_mapper
  on_mapper-LeadsTo A m r h = record { at = h }

  keep-LeadsTo : (e : Entry) → Keeps LeadsTo (keep e)
  unfolding LeadsTo keep
  keep-LeadsTo e r h = record { at = h }

  bind-LeadsTo : (p b : Text) → Keeps LeadsTo (bind p b)
  unfolding LeadsTo bind
  bind-LeadsTo p b r h = record { at = h }

  store_backend-LeadsTo : (e : Entry) (b : Text) → Keeps LeadsTo (store_backend e b)
  unfolding store_backend index
  store_backend-LeadsTo e b r h =
      kept-if LeadsTo (elsewhere (get r.internal_to_ref b) e.ref) (λ _. kept LeadsTo _ h)
        λ free.
          Keeps-bind LeadsTo (on_mapper (register_alias e.ref b)) (λ _. keep e)
            (on_mapper-LeadsTo _ (register_alias e.ref b)) (λ _. keep-LeadsTo e) (index b e.ref r).1
            (index-LeadsTo b e.ref r free h)

  store_checked-LeadsTo : (e : Entry) (b : Option Text) → Keeps LeadsTo (store_checked e b)
  unfolding store_checked
  store_checked-LeadsTo e none = keep-LeadsTo e
  store_checked-LeadsTo e (some b) =
      Keeps-lift LeadsTo (internal_id b) (store_backend e) (λ i _. store_backend-LeadsTo e i)

  store_entry-LeadsTo : (e : Entry) → Keeps LeadsTo (store_entry e)
  unfolding store_entry
  store_entry-LeadsTo e r h = search (writes, store_checked-LeadsTo e e.backend_id)

  after-LeadsTo : (calls : List Call) (r : Registry) → LeadsTo r → LeadsTo (after calls r)
  after-LeadsTo = after-P LeadsTo store_entry-LeadsTo on_mapper-LeadsTo bind-LeadsTo

module _ (ref : Text) (e : Entry) where
  Stands : Registry → Type 0
  Stands r = get r.entries ref ≡ some e

  keep-Stands :
      (e' : Entry) (r : Registry)
      → conflicts (get r.entries e'.ref) e' ≡ false
      → Stands r
      → Stands (keep e' r).1
  unfolding Stands keep conflicts
  keep-Stands e' r free h = ground (arith, get-put r.entries e'.ref ref e')

  on_mapper-Stands : (A : Type 0) (m : Exec Mapper Error A) → Keeps Stands (on_mapper m)
  unfolding Stands on_mapper
  on_mapper-Stands A m r h = record { at = h }

  bind-Stands : (p b : Text) → Keeps Stands (bind p b)
  unfolding Stands bind
  bind-Stands p b r h = record { at = h }

  module _ (e' : Entry) where
    -- The entry stands, and the one that comes in does not contradict what stands.
    record Free (r : Registry) : Type 0 where
      stands : Stands r
      free : conflicts (get r.entries e'.ref) e' ≡ false

    on_mapper-Free : (A : Type 0) (m : Exec Mapper Error A) → Keeps Free (on_mapper m)
    unfolding Stands on_mapper
    on_mapper-Free A m r h = record { at = record { stands = h.stands; free = h.free } }

    index-Free : (i j : Text) → Keeps Free (index i j)
    unfolding Stands index
    index-Free i j r h = record { at = record { stands = h.stands; free = h.free } }

    keep-Free : Keeps Free (keep e')
    unfolding keep conflicts
    keep-Free r h = record {
      at = record {
        stands = keep-Stands e' r h.free h.stands;
        free = ground (arith, get-put_self r.entries e'.ref e');
      };
    }

    store_backend-Free : (b : Text) → Keeps Free (store_backend e' b)
    unfolding store_backend
    store_backend-Free b r h =
        kept-if Free (elsewhere (get r.internal_to_ref b) e'.ref) (λ _. kept Free _ h)
          λ _.
            Keeps-bind Free (index b e'.ref) _ (index-Free b e'.ref)
              (λ _.
                Keeps-bind Free (on_mapper (register_alias e'.ref b)) (λ _. keep e')
                  (on_mapper-Free _ (register_alias e'.ref b)) (λ _. keep-Free))
              r h

    store_checked-Free : (b : Option Text) → Keeps Free (store_checked e' b)
    unfolding store_checked
    store_checked-Free none = keep-Free
    store_checked-Free (some b) =
        Keeps-lift Free (internal_id b) (store_backend e') (λ i _. store_backend-Free i)

    store_checked-Stands : (r : Registry) → Free r → Kept Stands (store_checked e' e'.backend_id r)
    store_checked-Stands r h = record { at = (store_checked-Free e'.backend_id r h).at.stands }

    store_entry-Stands : Keeps Stands (store_entry e')
    unfolding store_entry
    store_entry-Stands r h = search (writes, store_checked-Stands, Free)

  after-Stands : (calls : List Call) (r : Registry) → Stands r → Stands (after calls r)
  after-Stands = after-P Stands store_entry-Stands on_mapper-Stands bind-Stands

-- An object that has a reference keeps it, whatever calls follow, returning or raising.
pub alias_for_internal-after :
    (r : Registry) (calls : List Call) (internal ref : Text)
    → alias_for_internal r internal ≡ ok ref
    → alias_for_internal (after calls r) internal ≡ ok ref
unfolding alias_for_internal LeadsTo
alias_for_internal-after r calls internal ref h = elim (Result-cases (internal_id internal)) [
  | inl (id, e) ↦ ground (arith, after-LeadsTo id ref calls r)
  | inr (error, e) ↦ ground arith
]

-- An entry that was found is found unchanged, whatever calls follow, returning or raising.
pub entry_for-after :
    (r : Registry) (calls : List Call) (ref : Text) (e : Entry)
    → entry_for r ref ≡ ok e
    → entry_for (after calls r) ref ≡ ok e
unfolding entry_for Stands
entry_for-after r calls ref e h = ground (arith, after-Stands ref e calls r)
