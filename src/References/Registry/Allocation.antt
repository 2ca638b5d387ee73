-- ===== src/References/Registry/Allocation.antt =====
-- How references are numbered: a local reference is always new, and an object that is registered
-- afterwards can be given the number of a local reference.
use my_digital_brain.Base.{
  ℕ, ◌≤◌, ◌<◌, ◌≡◌, ◌≢◌, inl, inr, true, false, Option, none, some, [], ◌∷◌, map, arith,
  Option-cases, maximum, Text, text_discrete, padded, int_of-padded, is_digit-padded,
  isdigit-padded, rpartition-digits, starts_with-separator, length-padded_six, Table, get, put,
  keys, ok,
}
use my_digital_brain.References.Entry.{
  owner_alias, is_entry, build_entry, is_model_ref, is_filled, Kind, proposed, Entry, is_alias,
  is_filled, prefix_for, is_entry, build_entry, is_model_ref, node,
}
use my_digital_brain.References.Mapper.{numbered}
use my_digital_brain.References.Registry.{keep, store_checked, Registry, conflicts, store_entry}
use my_digital_brain.References.Registry.Register.{
  store_new, register_local, store_new, number_of, next_number, register_local,
}

number_of-numbered : (prefix : Text) (n : ℕ) → number_of prefix (numbered prefix n) ≡ n
unfolding number_of numbered
number_of-numbered prefix n = ground (
  arith,
  starts_with-separator prefix (padded 6 n) 95,
  rpartition-digits prefix (padded 6 n) (is_digit-padded 6 n),
  isdigit-padded 6 n,
  int_of-padded 6 n,
)

-- An entry's number is at most the maximum that `register_local` takes.
number_of-le :
    (prefix ref : Text) (d : Table Entry) (e : Entry)
    → get d ref ≡ some e
    → number_of prefix ref ≤ maximum (map (number_of prefix) (keys d))
unfolding get
number_of-le prefix ref [] e h = absurd (ground arith)
number_of-le prefix ref ((k, v) ∷ d) e h = elim (text_discrete k ref) [
  | yes p ↦ rw p (omega arith)
  | no p ↦ ground (arith, number_of-le prefix ref d e)
]

-- The reference that `register_local` builds.
abbrev pub local_ref : Kind → Registry → Text
local_ref kind r = numbered (prefix_for kind) (next_number (prefix_for kind) r.entries)

local_ref_free : (kind : Kind) (r : Registry) → get r.entries (local_ref kind r) ≡ none
unfolding next_number
local_ref_free kind r = elim (Option-cases (get r.entries (local_ref kind r))) [
  | inl e ↦ e
  | inr (e, p) ↦
      let prefix = prefix_for kind in
      absurd (
        omega (
          arith,
          number_of-le prefix (local_ref kind r) r.entries e p,
          number_of-numbered prefix (next_number prefix r.entries),
        ))
]

is_alias-numbered :
    (kind : Kind) (n : ℕ) → n < 1000000 → is_alias (numbered (prefix_for kind) n) ≡ true
unfolding is_alias numbered prefix_for
is_alias-numbered node n h = ground (
  arith,
  rpartition-digits (prefix_for node) (padded 6 n) (is_digit-padded 6 n),
  is_digit-padded 6 n,
  length-padded_six n h,
)
is_alias-numbered kind n h = ground (
  arith,
  rpartition-digits (prefix_for kind) (padded 6 n) (is_digit-padded 6 n),
  is_digit-padded 6 n,
  length-padded_six n h,
)

numbered-ne-owner : (kind : Kind) (n : ℕ) → numbered (prefix_for kind) n ≢ owner_alias
unfolding numbered prefix_for
numbered-ne-owner node n = ground arith
numbered-ne-owner kind n = ground arith

-- The entry of a local reference.
abbrev pub local_entry : Registry → Kind → Text → Option Text → Entry
local_entry r kind label display_label = record {
  ref = local_ref kind r;
  object_kind = kind;
  status = proposed;
  label = label;
  backend_id = none;
  graph_scope = r.graph_scope;
  session_scope = r.run_scope;
  display_label = display_label;
  aliases = [];
  is_owner = false;
}

module _ (r : Registry) (kind : Kind) (label : Text) (display_label : Option Text)
    (labelled : is_filled label ≡ true) (graph : is_filled r.graph_scope ≡ true)
    (run : is_filled r.run_scope ≡ true)
    (room : next_number (prefix_for kind) r.entries < 1000000) where
  is_entry-local_entry : is_entry (local_entry r kind label display_label) ≡ true
  unfolding is_entry is_model_ref
  is_entry-local_entry = ground (
    arith,
    is_alias-numbered kind (next_number (prefix_for kind) r.entries) room,
    numbered-ne-owner kind (next_number (prefix_for kind) r.entries),
  )

  store-local_entry :
      store_entry (local_entry r kind label display_label) r
      ≡ keep (local_entry r kind label display_label) r
  unfolding store_entry store_checked conflicts
  store-local_entry = ground (
    arith,
    is_alias-numbered kind (next_number (prefix_for kind) r.entries) room,
    local_ref_free kind r,
  )

  -- A local reference with a label, in a registry whose scopes are not empty and whose next
  -- number has at most six digits: nothing stood under it, the call returns it, and the registry
  -- differs from the old one by the new entry alone.
  pub register_local-fresh :
      (get r.entries (local_ref kind r) ≡ none)
      × (register_local kind label display_label r ≡ (
        ok (local_ref kind r),
        record r {
          entries = put r.entries (local_ref kind r) (local_entry r kind label display_label);
        },
      ))
  unfolding register_local store_new build_entry keep
  register_local-fresh =
      (local_ref_free kind r, ground (arith, is_entry-local_entry, store-local_entry))
