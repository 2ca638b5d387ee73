-- ===== src/References/Registry/Index.antt =====
-- Every reference stands under its own name, and the index of backend ids leads to it: whatever
-- is registered, and also after a call that raises, one backend object has one reference.
use my_digital_brain.Base.{
  Keeps-bind, kept, Option, none, refl, get-put_self, kept-if, Keeps-lift, Keeps, Keeps-bind, ◌≡◌,
  false, some, arith, Text, strip, get, get-put, ok, Exec, Keeps,
}
use my_digital_brain.References.Entry.{Entry}
use my_digital_brain.References.Errors.{Error}
use my_digital_brain.References.Mapper.{Mapper, register_alias}
use my_digital_brain.References.Registry.{
  Registry, on_mapper, internal_id, elsewhere, keep, index, store_backend, store_entry,
  store_checked,
}

pub record IsIndexed (r : Registry) : Type 0 where
  pub keyed : (ref : Text) (e : Entry) → get r.entries ref ≡ some e → e.ref ≡ ref
  pub indexed :
      (ref : Text) (e : Entry) (backend : Text)
      → get r.entries ref ≡ some e
      → e.backend_id ≡ some backend
      → get r.internal_to_ref (strip backend) ≡ some ref

internal_id-strip : (s id : Text) → internal_id s ≡ ok id → id ≡ strip s
unfolding internal_id
internal_id-strip s id h = ground arith

IsIndexed-index :
    (r : Registry) (id ref : Text)
    → elsewhere (get r.internal_to_ref id) ref ≡ false
    → IsIndexed r
    → IsIndexed (index id ref r).1
unfolding index elsewhere
IsIndexed-index r id ref free h = record {
  keyed = h.keyed;
  indexed = λ ref' e backend at has_id.
      ground (
        arith,
        h.indexed ref' e backend at has_id,
        get-put r.internal_to_ref id (strip backend) ref,
      );
}

-- The id leads to the entry's reference, which is what the last write needs.
record Leads (id : Text) (e : Entry) (r : Registry) : Type 0 where
  valid : IsIndexed r
  leads : get r.internal_to_ref id ≡ some e.ref

pub on_mapper-IsIndexed : {A : Type 0} (m : Exec Mapper Error A) → Keeps IsIndexed (on_mapper m)
unfolding on_mapper
on_mapper-IsIndexed m r h = record { at = record { keyed = h.keyed; indexed = h.indexed } }

on_mapper-Leads :
    {A : Type 0} (id : Text) (e : Entry) (m : Exec Mapper Error A)
    → Keeps (Leads id e) (on_mapper m)
unfolding on_mapper
on_mapper-Leads id e m r h = record {
  at = record {
    valid = record { keyed = h.valid.keyed; indexed = h.valid.indexed };
    leads = h.leads;
  };
}

IsIndexed-keep :
    (r : Registry) (e : Entry)
    → ((backend : Text)
        → e.backend_id ≡ some backend
        → get r.internal_to_ref (strip backend) ≡ some e.ref)
    → IsIndexed r
    → IsIndexed (keep e r).1
unfolding keep
IsIndexed-keep r e leads h = record {
  keyed = λ ref e' at. ground (arith, get-put r.entries e.ref ref e, h.keyed ref e');
  indexed = λ ref e' backend at has_id.
      ground (arith, get-put r.entries e.ref ref e, h.indexed ref e' backend, leads backend);
}

module _ (e : Entry) (backend id : Text) (has_id : e.backend_id ≡ some backend)
    (is_id : id ≡ strip backend) where
  keep-Leads : Keeps (Leads id e) (keep e)
  unfolding keep
  keep-Leads r h = record {
    at = record {
      valid = IsIndexed-keep r e (λ b p. ground (arith, h.leads)) h.valid;
      leads = h.leads;
    };
  }

  store_backend-IsIndexed : Keeps IsIndexed (store_backend e id)
  unfolding store_backend index
  store_backend-IsIndexed r h =
      kept-if IsIndexed (elsewhere (get r.internal_to_ref id) e.ref) (λ _. kept IsIndexed _ h)
        λ free. record {
          at =
              (Keeps-bind (Leads id e) (on_mapper (register_alias e.ref id)) (λ _. keep e)
                (on_mapper-Leads id e (register_alias e.ref id)) (λ _. keep-Leads)
                (index id e.ref r).1
                (record {
                  valid = IsIndexed-index r id e.ref free h;
                  leads = get-put_self r.internal_to_ref id e.ref;
                })).at.valid;
        }

store_checked-IsIndexed :
    (e : Entry) (b : Option Text) → e.backend_id ≡ b → Keeps IsIndexed (store_checked e b)
unfolding store_checked
store_checked-IsIndexed e none has_id r h = record {
  at = IsIndexed-keep r e (λ backend p. ground arith) h;
}
store_checked-IsIndexed e (some backend) has_id r h =
    Keeps-lift IsIndexed (internal_id backend) (store_backend e)
      (λ id is_id. store_backend-IsIndexed e backend id has_id (internal_id-strip backend id is_id))
      r h

-- `_store_entry` keeps the index, whether it returns or raises.
pub store_entry-IsIndexed : (e : Entry) → Keeps IsIndexed (store_entry e)
unfolding store_entry
store_entry-IsIndexed e r h = search (kept-if, kept, store_checked-IsIndexed e e.backend_id refl)
