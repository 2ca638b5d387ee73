-- ===== src/References/Mapper.antt =====
-- core/ids.py: `IdAliasMapper`, the allocator of numbered aliases.
use my_digital_brain.Base.{
  ℕ, ◌+◌, ◌-◌, max, false, not, holds, Option, none, some, [], ◌∷◌, ◌++◌, map, Bool, ◌&&◌, leb,
  Text, Table, get, put, text_discrete, strip, isdigit, int_of, padded, rpartition, if◌then◌else◌,
  Result, ok, err, Exec,
}
use my_digital_brain.References.Errors.{Error, empty_id, alias_taken, id_taken, unknown_alias}

pub record Mapper : Type 0 where
  pub counters : Table ℕ
  pub alias_to_id : Table Text
  pub id_to_alias : Table Text

abbrev pub empty_mapper : Mapper
empty_mapper = record { counters = []; alias_to_id = []; id_to_alias = [] }

-- `counters[k]` of a `defaultdict(int)`
unfoldable pub counter : Table ℕ → Text → ℕ
counter d k = elim (get d k) [ none ↦ 0 | some n ↦ n ]

-- `s.upper()`, on ASCII
unfoldable pub upper : Text → Text
upper = map (λ c. if leb b'a' c && leb c b'z' then c - 32 else c)

-- `_normalize_internal_id`
unfoldable pub normalize_internal_id : Text → Result Error Text
normalize_internal_id value = elim (strip value) [ [] ↦ err empty_id | c ∷ s ↦ ok (c ∷ s) ]

-- The alias of a number: `f"{prefix}_{number:06d}"`.
unfoldable pub numbered : Text → ℕ → Text
numbered prefix number = prefix ++ b'_' ∷ padded 6 number

-- The part of `alias_for` below the early return.
unfoldable pub allocate : Text → Text → Exec Mapper Error Text
allocate id prefix m =
    let number = counter m.counters prefix + 1 in
    let alias = numbered prefix number in
    (
      ok alias,
      record {
        counters = put m.counters prefix number;
        alias_to_id = put m.alias_to_id alias id;
        id_to_alias = put m.id_to_alias id alias;
      },
    )

-- An empty alias is falsy, as `if existing` reads it.
unfoldable pub alias_for : Text → Text → Exec Mapper Error Text
unfolding allocate
alias_for internal_id prefix m = elim (normalize_internal_id internal_id) [
  | err e ↦ (err e, m)
  | ok id ↦ elim (get m.id_to_alias id) [
    | none ↦ allocate id (upper prefix) m
    | some [] ↦ allocate id (upper prefix) m
    | some (c ∷ s) ↦ (ok (c ∷ s), m)
  ]
]

-- `existing not in (None, expected)`
unfoldable pub taken : Option Text → Text → Bool
taken none expected = false
taken (some existing) expected = not (holds (text_discrete existing expected))

-- The counter's update at the end of `register_alias`.
unfoldable pub raise_counter : Text → Table ℕ → Table ℕ
raise_counter alias counters = elim (rpartition alias) [
  | none ↦
      if isdigit alias then put counters [] (max (counter counters []) (int_of alias)) else counters
  | some (prefix, number) ↦
      if isdigit number
      then put counters prefix (max (counter counters prefix) (int_of number))
      else counters
]

unfoldable pub register_alias : Text → Text → Exec Mapper Error (Unit {0})
unfolding raise_counter
register_alias alias internal_id m = elim (normalize_internal_id internal_id) [
  | err e ↦ (err e, m)
  | ok id ↦
      let key = upper alias in
      if taken (get m.alias_to_id key) id
      then (err alias_taken, m)
      else if taken (get m.id_to_alias id) key
      then (err id_taken, m)
      else (
        ok tt,
        record {
          counters = raise_counter key m.counters;
          alias_to_id = put m.alias_to_id key id;
          id_to_alias = put m.id_to_alias id key;
        },
      )
]

-- `resolve`
unfoldable pub resolve : Mapper → Text → Result Error Text
resolve m alias = elim (get m.alias_to_id alias) [ none ↦ err unknown_alias | some id ↦ ok id ]

-- `export_context_map`
unfoldable pub export_context_map : Mapper → Table Text
export_context_map m = m.alias_to_id
