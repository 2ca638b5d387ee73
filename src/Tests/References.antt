-- ===== src/Tests/References.antt =====
-- A run's registry at concrete inputs.
use my_digital_brain.References.Entry.{
  Entry, build_entry, entry_discrete, existing, is_alias, is_candidate_name, is_candidate_prefixed,
  is_candidate_ref, is_entry, is_filled, is_model_ref, is_numbered, kind_discrete, memory, node,
  owner_fits, prefix_for, status_fits,
}
use my_digital_brain.References.Mapper.{
  alias_for, allocate, counter, empty_mapper, normalize_internal_id, numbered, raise_counter,
  register_alias, taken, upper,
}
use my_digital_brain.References.Registry.{
  Registry, conflicts, elsewhere, index, init, internal_id, keep, on_mapper, required_scope,
  store_backend, store_checked, store_entry,
}
use my_digital_brain.References.Registry.Again.{register_existing-again}
use my_digital_brain.References.Registry.Allocation.{local_entry, local_ref, register_local-fresh}
use my_digital_brain.References.Registry.Calls.{Call, after, call, existing_object, local_object}
use my_digital_brain.References.Registry.Collision.{existing_after_local, retried}
use my_digital_brain.References.Registry.Identity.{IsIndexed-of_empty, one_ref_per_object}
use my_digital_brain.References.Registry.Index.{IsIndexed}
use my_digital_brain.References.Registry.Read.{
  Snapshot, alias_for_internal, differs, entry_for, from_snapshot, restore_bindings,
  restore_entries, restored,
}
use my_digital_brain.References.Registry.Register.{
  Details, add_existing, next_number, number_of, put_existing, register_existing, register_local,
  reuse_existing, store_new,
}
use my_digital_brain.References.Registry.Restore.{from_snapshot-IsIndexed}
use my_digital_brain.References.Registry.Stability.{alias_for_internal-after, entry_for-after}
use my_digital_brain.Base.{
  List, Text, [], arith, codes, decimal, decimal_fuel, false, get, insert, int_of, is_digit,
  is_space, isdigit, lookup, lstrip, none, ok, padded, put, refl, rpartition, some, starts_with,
  strip, text_discrete, true, value_from, zeros, ℕ_discrete, ◌<◌, ◌∷◌, ◌≡◌, ◌≢◌,
}

abbrev graph : Text
graph = codes "graph"

abbrev run : Text
run = codes "run"

abbrev first : Text
first = codes "NODE_000001"

abbrev details : Details
details = record { label = codes "Anna"; display_label = none; aliases = [] }

abbrev fresh : Registry
fresh = record {
  graph_scope = graph;
  run_scope = run;
  mapper = empty_mapper;
  entries = [];
  internal_to_ref = [];
  proposal_bindings = [];
}

fresh-new : init graph run ≡ ok fresh
unfolding init required_scope strip lstrip is_space
fresh-new = refl

abbrev anna : Entry
anna = record {
  ref = first;
  object_kind = node;
  status = existing;
  label = codes "Anna";
  backend_id = some (codes "p1");
  graph_scope = graph;
  session_scope = run;
  display_label = none;
  aliases = [];
  is_owner = false;
}

abbrev calls : List Call
calls =
    existing_object (codes "p1") node details
    ∷ existing_object (codes " p1 ") node details
    ∷ existing_object (codes "p1") memory details
    ∷ local_object memory (codes "a walk") none
    ∷ []

abbrev known : Registry
known = record {
  graph_scope = graph;
  run_scope = run;
  mapper = record {
    counters = (codes "NODE", 1) ∷ [];
    alias_to_id = (first, codes "p1") ∷ [];
    id_to_alias = (codes "p1", first) ∷ [];
  };
  entries = (first, anna) ∷ [];
  internal_to_ref = (codes "p1", first) ∷ [];
  proposal_bindings = [];
}

registered : register_existing (codes "p1") node details fresh ≡ (ok first, known)
unfolding after call register_existing put_existing add_existing reuse_existing store_new
    build_entry is_entry is_filled status_fits owner_fits store_entry store_checked store_backend
    keep index elsewhere conflicts on_mapper alias_for allocate counter numbered upper
    normalize_internal_id taken register_alias raise_counter rpartition padded decimal decimal_fuel
    zeros isdigit is_digit int_of value_from get put lookup insert starts_with init required_scope
    strip lstrip is_space internal_id is_alias is_numbered is_candidate_ref is_candidate_prefixed
    is_candidate_name is_model_ref text_discrete ℕ_discrete entry_discrete kind_discrete prefix_for
    register_local number_of next_number
registered = refl

stands : get (after calls fresh).entries first ≡ some anna
unfolding after call register_existing put_existing add_existing reuse_existing store_new
    build_entry is_entry is_filled status_fits owner_fits store_entry store_checked store_backend
    keep index elsewhere conflicts on_mapper alias_for allocate counter numbered upper
    normalize_internal_id taken register_alias raise_counter rpartition padded decimal decimal_fuel
    zeros isdigit is_digit int_of value_from get put lookup insert starts_with init required_scope
    strip lstrip is_space internal_id is_alias is_numbered is_candidate_ref is_candidate_prefixed
    is_candidate_name is_model_ref text_discrete ℕ_discrete entry_discrete kind_discrete prefix_for
    register_local number_of next_number
stands = refl

one_ref_per_object_example : first ≡ first
one_ref_per_object_example =
    one_ref_per_object graph run fresh calls fresh-new first first anna anna (codes "p1")
      (codes "p1") stands stands refl refl refl

named : alias_for_internal known (codes " p1") ≡ ok first
unfolding after call register_existing put_existing add_existing reuse_existing store_new
    build_entry is_entry is_filled status_fits owner_fits store_entry store_checked store_backend
    keep index elsewhere conflicts on_mapper alias_for allocate counter numbered upper
    normalize_internal_id taken register_alias raise_counter rpartition padded decimal decimal_fuel
    zeros isdigit is_digit int_of value_from get put lookup insert starts_with init required_scope
    strip lstrip is_space internal_id is_alias is_numbered is_candidate_ref is_candidate_prefixed
    is_candidate_name is_model_ref text_discrete ℕ_discrete entry_discrete kind_discrete prefix_for
    register_local number_of next_number alias_for_internal
named = refl

alias_for_internal-after_example : alias_for_internal (after calls known) (codes " p1") ≡ ok first
alias_for_internal-after_example = alias_for_internal-after known calls (codes " p1") first named

found : entry_for known first ≡ ok anna
unfolding get lookup text_discrete ℕ_discrete entry_for
found = refl

entry_for-after_example : entry_for (after calls known) first ≡ ok anna
entry_for-after_example = entry_for-after known calls first anna found

fresh-IsIndexed : IsIndexed fresh
fresh-IsIndexed = IsIndexed-of_empty fresh refl

register_existing-again_example :
    (alias_for_internal known (codes "p1") ≡ ok first)
    × (register_existing (codes "p1") node (record details { label = codes "Ann" }) known
        ≡ (ok first, known))
register_existing-again_example =
    register_existing-again node details (record details { label = codes "Ann" }) (codes "p1") first
      fresh known fresh-IsIndexed registered

filled : is_filled (codes "a walk") ≡ true
unfolding is_filled
filled = refl

filled_graph : is_filled graph ≡ true
unfolding is_filled
filled_graph = refl

filled_run : is_filled run ≡ true
unfolding is_filled
filled_run = refl

room : next_number (prefix_for memory) known.entries < 1000000
unfolding next_number number_of prefix_for starts_with
room = ground arith

register_local-fresh_example :
    (get known.entries (local_ref memory known) ≡ none)
    × (register_local memory (codes "a walk") none known ≡ (
      ok (local_ref memory known),
      record known {
        entries =
            put known.entries
              (local_ref memory known)
              (local_entry known memory (codes "a walk") none);
      },
    ))
register_local-fresh_example =
    register_local-fresh known memory (codes "a walk") none filled filled_graph filled_run room

abbrev snapshot : Snapshot
snapshot = record {
  graph_scope = graph;
  run_scope = run;
  entries = anna ∷ [];
  proposal_bindings = [];
}

restored_snapshot : from_snapshot snapshot none none ≡ ok known
unfolding after call register_existing put_existing add_existing reuse_existing store_new
    build_entry is_entry is_filled status_fits owner_fits store_entry store_checked store_backend
    keep index elsewhere conflicts on_mapper alias_for allocate counter numbered upper
    normalize_internal_id taken register_alias raise_counter rpartition padded decimal decimal_fuel
    zeros isdigit is_digit int_of value_from get put lookup insert starts_with init required_scope
    strip lstrip is_space internal_id is_alias is_numbered is_candidate_ref is_candidate_prefixed
    is_candidate_name is_model_ref text_discrete ℕ_discrete entry_discrete kind_discrete prefix_for
    register_local number_of next_number from_snapshot restore_entries restore_bindings restored
    differs
restored_snapshot = refl

from_snapshot-IsIndexed_example : IsIndexed known
from_snapshot-IsIndexed_example = from_snapshot-IsIndexed snapshot none none known restored_snapshot

anna_id : internal_id (codes "p1") ≡ ok (codes "p1")
unfolding after call register_existing put_existing add_existing reuse_existing store_new
    build_entry is_entry is_filled status_fits owner_fits store_entry store_checked store_backend
    keep index elsewhere conflicts on_mapper alias_for allocate counter numbered upper
    normalize_internal_id taken register_alias raise_counter rpartition padded decimal decimal_fuel
    zeros isdigit is_digit int_of value_from get put lookup insert starts_with init required_scope
    strip lstrip is_space internal_id is_alias is_numbered is_candidate_ref is_candidate_prefixed
    is_candidate_name is_model_ref text_discrete ℕ_discrete entry_discrete kind_discrete prefix_for
    register_local number_of next_number
anna_id = refl

existing_after_local_example :
    (register_existing (codes "p1") node details (
      retried
        (codes "p1")
        node
        (details ∷ details ∷ [])
        (register_local node (codes "a walk") none fresh).1)).0
    ≢ ok first
existing_after_local_example =
    existing_after_local graph run fresh node (codes "a walk") details (codes "p1") (codes "p1")
      (details ∷ details ∷ []) first fresh-new filled anna_id
