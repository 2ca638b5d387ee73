-- ===== src/Refs/Context.antt =====
-- agentic/refs.py: `RefContext`. A method returns the context that it leaves, also beside an
-- exception; an entry that is changed in place is put back under its reference.
pub mod Unique
pub mod Calls
pub mod Resolve
use my_digital_brain.Base.{
  ℕ, ◌+◌, max, Bool, true, false, not, ◌&&◌, Option, none, some, List, [], ◌∷◌, ◌++◌, if◌then◌else◌,
  holds, Text, codes, text_discrete, strip, padded, Table, get, put, values, Result, ok, err, Exec,
  ◌>>=◌, ◌>>◌, lift, pure,
}
use my_digital_brain.Refs.Entry.{
  ObjectKind, node, object_kind_discrete, Resolution, existing, proposed, RefEntry,
  ref_entry_discrete, RefError, ref_exists, other_meaning, unknown_ref, empty_backend_id,
  other_kind, other_ref, owner_not_person, unexpected_kind, not_bound, not_registered,
  merge_conflict, owner_ref, kind_value, validate_ref_for_kind, build_ref_entry,
}

-- `RefContext`
pub record RefContext : Type 0 where
  pub session_id : Option Text
  pub entries : Table RefEntry
  pub counters : Table ℕ

abbrev pub Act : Type 0 → Type 0
Act A = Exec RefContext RefError A

-- What the caller gives of an entry.
pub record Facts : Type 0 where
  pub label : Option Text
  pub type : Option Text
  pub name : Option Text
  pub summary : Option Text
  pub aliases : List Text
  pub source : Option Text

-- `RefEntry(...)` of the facts
unfoldable pub entry_of : Text → ObjectKind → Option Text → Resolution → Facts → RefEntry
entry_of ref kind backend_id status facts = record {
  ref = ref;
  object_kind = kind;
  label = facts.label;
  type = facts.type;
  name = facts.name;
  summary = facts.summary;
  aliases = facts.aliases;
  backend_id = backend_id;
  source = facts.source;
  resolution_status = status;
  diagnostics = [];
}

-- `f"{kind.value}{'_new' if proposed else ''}"`
unfoldable pub counter_key : ObjectKind → Bool → Text
unfolding kind_value
counter_key kind is_new = if is_new then kind_value kind ++ codes "_new" else kind_value kind

-- `int(counters.get(key, 0))`
unfoldable pub count : Table ℕ → Text → ℕ
count counters key = elim (get counters key) [ none ↦ 0 | some n ↦ n ]

-- `f"{prefix}{middle}_{n:04d}"`
unfoldable pub numbered_ref : ObjectKind → Bool → ℕ → Text
unfolding counter_key
numbered_ref kind is_new n = counter_key kind is_new ++ b'_' ∷ padded 4 n

-- `allocate_ref`
unfoldable pub allocate_ref : ObjectKind → Bool → Act Text
unfolding count
allocate_ref kind is_new c =
    let n = count c.counters (counter_key kind is_new) + 1 in
    (
      ok (numbered_ref kind is_new n),
      record c { counters = put c.counters (counter_key kind is_new) n },
    )

-- `self.entries[ref] = entry`
unfoldable pub write_entry : Text → RefEntry → Act Unit
write_entry ref e c = (ok tt, record c { entries = put c.entries ref e })

-- `add_entry`
unfoldable pub add_entry : RefEntry → Act Text
unfolding write_entry
add_entry e c = elim (get c.entries e.ref) [
  | some _ ↦ (err (ref_exists e.ref), c)
  | none ↦ (do lift (validate_ref_for_kind e.ref e.object_kind); write_entry e.ref e; pure e.ref) c
]

-- `RefEntry(...)`, then `add_entry`; the methods return the reference of the entry.
unfoldable pub add_new : RefEntry → Act Text
unfolding add_entry
add_new e = do entry ← lift (build_ref_entry e); add_entry entry

-- `add_hydrated`
unfoldable pub add_hydrated : ObjectKind → Option Text → Facts → Act Text
unfolding allocate_ref add_new entry_of
add_hydrated kind backend_id facts = do
  ref ← allocate_ref kind false
  add_new (entry_of ref kind backend_id existing facts)

-- `add_proposed`
unfoldable pub add_proposed : ObjectKind → Facts → Act Text
unfolding allocate_ref add_new entry_of
add_proposed kind facts = do
  ref ← allocate_ref kind true
  add_new (entry_of ref kind none proposed facts)

-- `_required_backend_id`
unfoldable pub required_backend_id : Text → Result RefError Text
required_backend_id value = elim (strip value) [ [] ↦ err empty_backend_id | c ∷ s ↦ ok (c ∷ s) ]

-- `entry.backend_id == backend_id`
unfoldable pub is_bound_to : Text → RefEntry → Bool
is_bound_to id e = elim e.backend_id [ none ↦ false | some b ↦ holds (text_discrete b id) ]

-- The loop of `ref_for_backend_id`.
unfoldable pub find_backend : Text → List RefEntry → Option Text
unfolding is_bound_to
find_backend id [] = none
find_backend id (e ∷ entries) = if is_bound_to id e then some e.ref else find_backend id entries

-- `ref_for_backend_id`
unfoldable pub ref_for_backend_id : RefContext → Text → Option Text
unfolding find_backend
ref_for_backend_id c id = find_backend id (values c.entries)

-- `get_entry`, and `entry_for`
unfoldable pub get_entry : RefContext → Text → Result RefError RefEntry
get_entry c ref = elim (get c.entries ref) [ none ↦ err (unknown_ref ref) | some e ↦ ok e ]

-- The branch of `register_existing` for an object that has a reference.
unfoldable pub reuse : Text → ObjectKind → Text → Act Text
unfolding get_entry
reuse id kind ref c = elim (get_entry c ref) [
  | err error ↦ (err error, c)
  | ok e ↦
      if holds (object_kind_discrete e.object_kind kind)
      then (ok ref, c)
      else (err (other_kind id), c)
]

-- `register_existing`, below the normalisation of the id
unfoldable pub register_id : ObjectKind → Facts → Text → Act Text
unfolding ref_for_backend_id reuse add_hydrated
register_id kind facts id c = elim (ref_for_backend_id c id) [
  | some ref ↦ reuse id kind ref c
  | none ↦ add_hydrated kind (some id) facts c
]

-- `register_existing`
unfoldable pub register_existing : Text → ObjectKind → Facts → Act Text
unfolding required_backend_id register_id
register_existing backend_id kind facts = do
  id ← lift (required_backend_id backend_id)
  register_id kind facts id

-- The part of `register_proposed` below the entry.
unfoldable pub put_proposed : RefEntry → Act Text
unfolding add_entry
put_proposed e c = elim (get c.entries e.ref) [
  | none ↦ add_entry e c
  | some current ↦
      if holds (ref_entry_discrete current e) then (ok e.ref, c) else (err (other_meaning e.ref), c)
]

-- `register_proposed`
unfoldable pub register_proposed : Text → ObjectKind → Facts → Act Text
unfolding put_proposed entry_of
register_proposed ref kind facts = do
  e ← lift (build_ref_entry (entry_of ref kind none proposed facts))
  put_proposed e

-- `existing_ref not in (None, ref)`
unfoldable pub is_elsewhere : Option Text → Text → Bool
is_elsewhere none ref = false
is_elsewhere (some other) ref = not (holds (text_discrete other ref))

-- The assignments of `resolve_backend_id`.
unfoldable pub bind_entry : Text → RefEntry → Resolution → Text → Act Text
unfolding is_elsewhere ref_for_backend_id write_entry
bind_entry ref e status id c =
    if is_elsewhere (ref_for_backend_id c id) ref
    then (err (other_ref id), c)
    else (do
      write_entry ref (record e { backend_id = some id; resolution_status = status })
      pure ref)
        c

-- `resolve_backend_id`
unfoldable pub resolve_backend_id : Text → Text → Resolution → Act Text
unfolding get_entry bind_entry
resolve_backend_id ref backend_id status c =
    (do
      e ← lift (get_entry c ref)
      id ← lift (required_backend_id backend_id)
      bind_entry ref e status id)
      c

-- `current.object_kind != NODE or current.label != "Person"`
unfoldable pub is_person : RefEntry → Bool
is_person e =
    holds (object_kind_discrete e.object_kind node)
    && elim e.label [ none ↦ false | some s ↦ holds (text_discrete s (codes "Person")) ]

-- `bind_owner`, below the normalisation of the id
unfoldable pub put_owner : Option Text → List Text → Text → Act Text
unfolding is_person write_entry add_new entry_of
put_owner name aliases id c = elim (get c.entries owner_ref) [
  | some current ↦
      if is_person current
      then (do
        write_entry owner_ref (record current {
          backend_id = some id;
          name = name;
          aliases = aliases;
          source = some (codes "request_owner");
          resolution_status = existing;
        })
        pure owner_ref)
          c
      else (err owner_not_person, c)
  | none ↦
      add_new
        (entry_of owner_ref node (some id) existing (record {
          label = some (codes "Person");
          type = none;
          name = name;
          summary = none;
          aliases = aliases;
          source = some (codes "request_owner");
        }))
        c
]

-- `bind_owner`
unfoldable pub bind_owner : Text → Option Text → List Text → Act Text
unfolding put_owner
bind_owner backend_id name aliases = do
  id ← lift (required_backend_id backend_id)
  put_owner name aliases id

-- `if not entry.backend_id`
unfoldable pub bound_id : Text → RefEntry → Result RefError Text
bound_id ref e = elim e.backend_id [
  | none ↦ err (not_bound ref)
  | some [] ↦ err (not_bound ref)
  | some (b ∷ s) ↦ ok (b ∷ s)
]

-- `expected_kind is not None and entry.object_kind != expected_kind`
unfoldable pub is_unexpected : RefEntry → Option ObjectKind → Bool
is_unexpected e none = false
is_unexpected e (some kind) = not (holds (object_kind_discrete e.object_kind kind))

-- `resolve`
unfoldable pub resolve : RefContext → Text → Option ObjectKind → Result RefError Text
unfolding get_entry is_unexpected bound_id
resolve c ref expected = elim (get_entry c ref) [
  | err error ↦ err error
  | ok e ↦ if is_unexpected e expected then err (unexpected_kind ref) else bound_id ref e
]

-- `backend_id_for_ref`
unfoldable pub backend_id_for_ref : RefContext → Text → Result RefError Text
unfolding get_entry bound_id
backend_id_for_ref c ref = elim (get_entry c ref) [ err error ↦ err error | ok e ↦ bound_id ref e ]

-- `alias_for_internal`
unfoldable pub alias_for_internal : RefContext → Text → Result RefError Text
unfolding required_backend_id ref_for_backend_id
alias_for_internal c backend_id = elim (required_backend_id backend_id) [
  | err error ↦ err error
  | ok id ↦ elim (ref_for_backend_id c id) [
    | none ↦ err (not_registered backend_id)
    | some ref ↦ ok ref
  ]
]

-- `ref in self.entries and self.entries[ref] != entry`
unfoldable pub clashes : Option RefEntry → RefEntry → Bool
clashes none e = false
clashes (some current) e = not (holds (ref_entry_discrete current e))

-- The first loop of `merge_delta`.
unfoldable pub merge_entries : Table RefEntry → Act Unit
unfolding clashes write_entry
merge_entries [] c = (ok tt, c)
merge_entries ((ref, e) ∷ entries) c =
    if clashes (get c.entries ref) e
    then (err (merge_conflict ref), c)
    else (write_entry ref e >> merge_entries entries) c

-- The second loop.
unfoldable pub merge_counters : Table ℕ → Table ℕ → Table ℕ
unfolding count
merge_counters counters [] = counters
merge_counters counters ((key, n) ∷ others) =
    merge_counters (put counters key (max (count counters key) n)) others

-- `merge_delta`
unfoldable pub merge_delta : RefContext → Act Unit
unfolding merge_entries merge_counters
merge_delta other = do
  merge_entries other.entries
  λ c. (ok tt, record c { counters = merge_counters c.counters other.counters })
