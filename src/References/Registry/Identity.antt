-- ===== src/References/Registry/Identity.antt =====
-- One backend object has one reference, for the whole run.
use my_digital_brain.Base.{◌≡◌, ap, some, List, [], arith, Text, strip, get, ok, Keeps}
use my_digital_brain.References.Entry.{Entry}
use my_digital_brain.References.Registry.{Registry, init}
use my_digital_brain.References.Registry.Index.{
  IsIndexed, on_mapper-IsIndexed, store_entry-IsIndexed,
}
use my_digital_brain.References.Registry.Register.{bind}
use my_digital_brain.References.Registry.Calls.{Call, after, after-P}

pub bind-IsIndexed : (ref id : Text) → Keeps IsIndexed (bind ref id)
unfolding bind
bind-IsIndexed ref id r h = record { at = record { keyed = h.keyed; indexed = h.indexed } }

pub entries-init : (graph run : Text) (r : Registry) → init graph run ≡ ok r → r.entries ≡ []
unfolding init
entries-init graph run r h = ground arith

pub IsIndexed-of_empty : (r : Registry) → r.entries ≡ [] → IsIndexed r
unfolding get
IsIndexed-of_empty r h = record {
  keyed = λ ref e p. ground arith;
  indexed = λ ref e backend p q. ground arith;
}

-- Whatever calls are made on a new registry, returning or raising: two entries whose backend ids
-- agree up to surrounding white space stand under the same reference.
pub one_ref_per_object :
    (graph run : Text) (r : Registry) (calls : List Call)
    → init graph run ≡ ok r
    → (ref ref' : Text) (e e' : Entry) (backend backend' : Text)
    → get (after calls r).entries ref ≡ some e
    → get (after calls r).entries ref' ≡ some e'
    → e.backend_id ≡ some backend
    → e'.backend_id ≡ some backend'
    → strip backend ≡ strip backend'
    → ref ≡ ref'
one_ref_per_object graph run r calls new ref ref' e e' backend backend' at at' id id' same =
    let h =
      after-P IsIndexed store_entry-IsIndexed (λ A. on_mapper-IsIndexed) bind-IsIndexed calls r
        (IsIndexed-of_empty r (entries-init graph run r new)) in
    cc (
      h.indexed ref e backend at id,
      h.indexed ref' e' backend' at' id',
      ap (get (after calls r).internal_to_ref) same,
    )
