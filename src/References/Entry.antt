-- ===== src/References/Entry.antt =====
-- ingestion/contracts/identity_resolution.py: `ReferenceRegistryEntry` and the reference patterns.
use my_digital_brain.Base.{
  ℕ, Bool, true, false, not, ◌&&◌, ◌||◌, Option, none, some, List, [], ◌∷◌, ℕ_discrete, leb, ◌==◌,
  if◌then◌else◌, holds, length, drop, every, some_of, Text, codes, text_discrete, starts_with,
  is_digit, rpartition, Result, ok, err,
}
use my_digital_brain.References.Errors.{Error, malformed_entry}

pub data Kind : Type 0 where
  node memory edge context media source claim : Kind

pub data Status : Type 0 where
  existing proposed : Status

pub record Entry : Type 0 where
  pub ref : Text
  pub object_kind : Kind
  pub status : Status
  pub label : Text
  pub backend_id : Option Text
  pub graph_scope : Text
  pub session_scope : Text
  pub display_label : Option Text
  pub aliases : List Text
  pub is_owner : Bool

unfoldable pub kind_discrete : Discrete Kind
kind_discrete = hlevel

unfoldable pub entry_discrete : Discrete Entry
unfolding ℕ_discrete
entry_discrete = hlevel ℕ_discrete

abbrev pub owner_alias : Text
owner_alias = codes "OWNER"

abbrev pub person : Text
person = codes "Person"

-- `_PREFIX_BY_KIND`, which has every kind, so that `_prefix_for` raises for none
unfoldable pub prefix_for : Kind → Text
prefix_for node = codes "NODE"
prefix_for memory = codes "MEMORY"
prefix_for edge = codes "REL"
prefix_for context = codes "CONTEXT"
prefix_for media = codes "MEDIA"
prefix_for source = codes "SOURCE"
prefix_for claim = codes "CLAIM"

abbrev prefixes : List Text
prefixes =
    codes "NODE"
    ∷ codes "REL"
    ∷ codes "MEMORY"
    ∷ codes "CONTEXT"
    ∷ codes "MEDIA"
    ∷ codes "SOURCE"
    ∷ codes "CLAIM"
    ∷ []

-- `PREFIX_[0-9]{6}`
unfoldable pub is_numbered : Text → Text → Bool
is_numbered s prefix = elim (rpartition s) [
  | none ↦ false
  | some (p, number) ↦
      holds (text_discrete p prefix) && every is_digit number && (length number == 6)
]

-- `_ALIAS_RE.fullmatch`
unfoldable pub is_alias : Text → Bool
unfolding is_numbered
is_alias s = holds (text_discrete s owner_alias) || some_of (is_numbered s) prefixes

unfoldable pub is_upper : ℕ → Bool
is_upper c = leb b'A' c && leb c b'Z'

-- `[A-Z][A-Z0-9_]*`
unfoldable pub is_candidate_name : Text → Bool
unfolding is_upper is_digit
is_candidate_name [] = false
is_candidate_name (c ∷ s) = is_upper c && every (λ d. is_upper d || is_digit d || (d == b'_')) s

-- `s.startswith("CANDIDATE_")`
unfoldable pub is_candidate_prefixed : Text → Bool
is_candidate_prefixed s = starts_with s (codes "CANDIDATE_")

-- `CANDIDATE_[A-Z][A-Z0-9_]*_[0-9]{3,6}`
unfoldable pub is_candidate_ref : Text → Bool
unfolding is_candidate_prefixed is_candidate_name
is_candidate_ref s = elim (rpartition s) [
  | none ↦ false
  | some (p, number) ↦
      is_candidate_prefixed p
      && is_candidate_name (drop 10 p)
      && every is_digit number
      && leb 3 (length number)
      && leb (length number) 6
]

-- `_MODEL_REF_RE.fullmatch`
unfoldable pub is_model_ref : Text → Bool
unfolding is_alias is_candidate_ref
is_model_ref s = is_alias s || is_candidate_ref s

-- `bool(s)`
unfoldable pub is_filled : Text → Bool
is_filled [] = false
is_filled (c ∷ s) = true

unfoldable pub status_fits : Status → Option Text → Bool
status_fits existing none = false
status_fits existing (some id) = is_filled id
status_fits proposed none = true
status_fits proposed (some id) = false

unfoldable pub owner_fits : Entry → Bool
owner_fits e =
    if holds (text_discrete e.ref owner_alias)
    then e.is_owner
      && holds (kind_discrete e.object_kind node)
      && holds (text_discrete e.label person)
    else not e.is_owner

-- The field constraints and `_validate_registry_entry`
unfoldable pub is_entry : Entry → Bool
unfolding status_fits owner_fits is_filled
is_entry e =
    is_filled e.label
    && is_filled e.graph_scope
    && is_filled e.session_scope
    && is_model_ref e.ref
    && status_fits e.status e.backend_id
    && owner_fits e

-- `ReferenceRegistryEntry(...)`
unfoldable pub build_entry : Entry → Result Error Entry
build_entry e = if is_entry e then ok e else err malformed_entry
