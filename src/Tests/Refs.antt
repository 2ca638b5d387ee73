-- ===== src/Tests/Refs.antt =====
-- The references of a session at concrete inputs.
use my_digital_brain.Refs.Context.{
  Facts, RefContext, add_entry, add_hydrated, add_new, add_proposed, alias_for_internal,
  allocate_ref, bind_entry, bind_owner, clashes, count, counter_key, entry_of, find_backend,
  get_entry, is_bound_to, is_elsewhere, merge_counters, merge_delta, merge_entries, numbered_ref,
  put_owner, put_proposed, ref_for_backend_id, register_existing, register_id, register_proposed,
  required_backend_id, resolve, resolve_backend_id, reuse, write_entry,
}
use my_digital_brain.Refs.Context.Calls.{
  IsSafe, RefCall, after, call, delta, existing_object, hydrated_object, new-IsUnique, new_context,
  new_object, one_ref_per_backend_id, owner, ready_entry, resolution,
}
use my_digital_brain.Refs.Context.Resolve.{register_existing-resolve}
use my_digital_brain.Refs.Context.Unique.{IsFree}
use my_digital_brain.Refs.Entry.{
  RefEntry, RefError, build_ref_entry, existing, has_prefix, is_local_ref, is_ref_char, is_ref_head,
  is_ref_name, kind_value, node, object_kind_discrete, owner_ref, resolved, validate_ref_for_kind,
  ref_entry_discrete,
}
use my_digital_brain.Base.{
  List, Result, Text, [], arith, codes, decimal, decimal_fuel, get, insert, is_digit, is_space,
  lookup, lstrip, none, ok, padded, put, refl, some, starts_with, strip, text_discrete, zeros,
  ℕ_discrete, ◌∷◌, ◌≡◌,
}

abbrev facts : Facts
facts = record {
  label = some (codes "Person");
  type = none;
  name = some (codes "Anna");
  summary = none;
  aliases = [];
  source = none;
}

abbrev anna : RefEntry
anna = entry_of (codes "node_0001") node (some (codes "p1")) existing facts

abbrev other : RefEntry
other = entry_of (codes "node_0007") node (some (codes "p7")) existing facts

abbrev calls : List RefCall
calls =
    owner (codes "p0") none []
    ∷ new_object node facts
    ∷ existing_object (codes " p1 ") node facts
    ∷ resolution (codes "node_new_0001") (codes "p1") resolved
    ∷ resolution (codes "node_new_0001") (codes "p2") resolved
    ∷ hydrated_object node (some (codes "p3")) facts
    ∷ ready_entry (entry_of (codes "node_0009") node (some (codes "p4")) existing facts)
    ∷ delta (record {
      session_id = none;
      entries = (codes "node_0001", anna) ∷ (codes "node_0007", other) ∷ [];
      counters = (codes "node", 7) ∷ [];
    })
    ∷ []

abbrev ended : RefContext
ended = after calls (new_context none)

stands : get ended.entries (codes "node_0001") ≡ some anna
unfolding after call bind_owner put_owner ref_entry_discrete merge_delta merge_entries
    merge_counters clashes register_proposed put_proposed register_existing register_id reuse
    add_hydrated add_proposed allocate_ref numbered_ref counter_key kind_value count write_entry
    add_entry add_new entry_of required_backend_id is_bound_to find_backend ref_for_backend_id
    get_entry resolve_backend_id bind_entry is_elsewhere build_ref_entry validate_ref_for_kind
    is_local_ref has_prefix is_ref_name is_ref_head is_ref_char is_digit starts_with padded decimal
    decimal_fuel zeros get put lookup insert strip lstrip is_space text_discrete ℕ_discrete
    object_kind_discrete
stands = refl

anna-bound : anna.backend_id ≡ some (codes "p1")
unfolding entry_of
anna-bound = refl

same_ok : (a b : Text) → Path (Result RefError Text) (ok a) (ok b) → a ≡ b
same_ok a b e = ground arith

owner-IsFree :
    (id : Text)
    → required_backend_id (codes "p0") ≡ ok id
    → IsFree (new_context none) owner_ref (some id)
unfolding after call bind_owner put_owner ref_entry_discrete merge_delta merge_entries
    merge_counters clashes register_proposed put_proposed register_existing register_id reuse
    add_hydrated add_proposed allocate_ref numbered_ref counter_key kind_value count write_entry
    add_entry add_new entry_of required_backend_id is_bound_to find_backend ref_for_backend_id
    get_entry resolve_backend_id bind_entry is_elsewhere build_ref_entry validate_ref_for_kind
    is_local_ref has_prefix is_ref_name is_ref_head is_ref_char is_digit starts_with padded decimal
    decimal_fuel zeros get put lookup insert strip lstrip is_space text_discrete ℕ_discrete
    object_kind_discrete
owner-IsFree id e = refl

safe : IsSafe calls (new_context none)
unfolding after call bind_owner put_owner ref_entry_discrete merge_delta merge_entries
    merge_counters clashes register_proposed put_proposed register_existing register_id reuse
    add_hydrated add_proposed allocate_ref numbered_ref counter_key kind_value count write_entry
    add_entry add_new entry_of required_backend_id is_bound_to find_backend ref_for_backend_id
    get_entry resolve_backend_id bind_entry is_elsewhere build_ref_entry validate_ref_for_kind
    is_local_ref has_prefix is_ref_name is_ref_head is_ref_char is_digit starts_with padded decimal
    decimal_fuel zeros get put lookup insert strip lstrip is_space text_discrete ℕ_discrete
    object_kind_discrete
safe = (owner-IsFree, (tt, (tt, (tt, (tt, (refl, (refl, ((refl, refl, (refl, refl, tt)), tt))))))))

one_ref_per_backend_id_example : codes "node_0001" ≡ codes "node_0001"
one_ref_per_backend_id_example =
    one_ref_per_backend_id none calls (codes "node_0001") (codes "node_0001") (codes "p1") anna anna
      safe stands stands anna-bound anna-bound

abbrev registered : RefContext
registered = record {
  session_id = none;
  entries = (codes "node_0001", anna) ∷ [];
  counters = (codes "node", 1) ∷ [];
}

required : required_backend_id (codes " p1 ") ≡ ok (codes "p1")
unfolding required_backend_id strip lstrip is_space
required = refl

registers :
    register_existing (codes " p1 ") node facts (new_context none)
    ≡ (ok (codes "node_0001"), registered)
unfolding bind_owner put_owner register_existing register_id reuse add_hydrated add_proposed
    allocate_ref numbered_ref counter_key kind_value count write_entry add_entry add_new entry_of
    required_backend_id is_bound_to find_backend ref_for_backend_id get_entry resolve_backend_id
    bind_entry is_elsewhere build_ref_entry validate_ref_for_kind is_local_ref has_prefix
    is_ref_name is_ref_head is_ref_char is_digit starts_with padded decimal decimal_fuel zeros get
    put lookup insert strip lstrip is_space text_discrete ℕ_discrete object_kind_discrete
registers = refl

register_existing-resolve_example :
    (alias_for_internal registered (codes " p1 ") ≡ ok (codes "node_0001"))
    × (resolve registered (codes "node_0001") (some node) ≡ ok (codes "p1"))
register_existing-resolve_example =
    register_existing-resolve (codes " p1 ") (codes "p1") (codes "node_0001") node facts
      (new_context none) registered (new-IsUnique none) required registers
