-- ===== src/Refs/Entry.antt =====
-- agentic/refs.py: `RefEntry` and the pattern of local references.
use my_digital_brain.Base.{
  ℕ, Bool, false, not, ◌&&◌, ◌||◌, ◌==◌, leb, Option, List, [], ◌∷◌, ◌++◌, if◌then◌else◌, holds,
  length, every, some_of, drop, Text, codes, text_discrete, ℕ_discrete, starts_with, is_digit,
  Result, ok, err, ◌+◌,
}

-- `RefObjectKind`
pub data ObjectKind : Type 0 where
  node memory edge context media : ObjectKind

unfoldable pub object_kind_discrete : Discrete ObjectKind
object_kind_discrete = hlevel

-- `RefResolutionStatus`
pub data Resolution : Type 0 where
  existing proposed created resolved updated ambiguous missing : Resolution

-- `RefEntry`; a diagnostic is a dictionary, kept as its text.
pub record RefEntry : Type 0 where
  pub ref : Text
  pub object_kind : ObjectKind
  pub label : Option Text
  pub type : Option Text
  pub name : Option Text
  pub summary : Option Text
  pub aliases : List Text
  pub backend_id : Option Text
  pub source : Option Text
  pub resolution_status : Resolution
  pub diagnostics : List Text

unfoldable pub ref_entry_discrete : Discrete RefEntry
unfolding ℕ_discrete
ref_entry_discrete = hlevel ℕ_discrete

-- The `ValueError`s of the module, and of the enumerations' lookups none: kinds are given as such.
pub data RefError : Type 0 where
  malformed_ref : Text → RefError
  wrong_prefix : Text → ObjectKind → RefError
  ref_exists : Text → RefError
  other_meaning : Text → RefError
  unknown_ref : Text → RefError
  empty_backend_id : RefError
  other_kind : Text → RefError
  other_ref : Text → RefError
  owner_not_person : RefError
  unexpected_kind : Text → RefError
  not_bound : Text → RefError
  not_registered : Text → RefError
  merge_conflict : Text → RefError

abbrev pub owner_ref : Text
owner_ref = codes "OWNER"

-- `kind.value`, which is also `_KIND_PREFIX[kind]`
unfoldable pub kind_value : ObjectKind → Text
kind_value node = codes "node"
kind_value memory = codes "memory"
kind_value edge = codes "edge"
kind_value context = codes "context"
kind_value media = codes "media"

abbrev kinds : List ObjectKind
kinds = node ∷ memory ∷ edge ∷ context ∷ media ∷ []

-- `[a-z0-9]`
unfoldable pub is_ref_head : ℕ → Bool
unfolding is_digit
is_ref_head c = (leb b'a' c && leb c b'z') || is_digit c

-- `[a-z0-9_]`
unfoldable pub is_ref_char : ℕ → Bool
unfolding is_ref_head
is_ref_char c = is_ref_head c || (c == b'_')

-- `[a-z0-9][a-z0-9_]{0,63}`
unfoldable pub is_ref_name : Text → Bool
unfolding is_ref_head is_ref_char
is_ref_name [] = false
is_ref_name (c ∷ s) = is_ref_head c && every is_ref_char s && leb (length s) 63

-- `ref.startswith(f"{prefix}_")`
unfoldable pub has_prefix : Text → ObjectKind → Bool
unfolding starts_with kind_value
has_prefix s kind = starts_with s (kind_value kind ++ b'_' ∷ [])

-- `LOCAL_REF_RE.fullmatch(ref)`
unfoldable pub is_local_ref : Text → Bool
unfolding has_prefix is_ref_name kind_value
is_local_ref s =
    holds (text_discrete s owner_ref)
    || some_of (λ kind. has_prefix s kind && is_ref_name (drop (length (kind_value kind) + 1) s))
        kinds

-- `_validate_ref_for_kind`; the second prefix of its test begins with the first.
unfoldable pub validate_ref_for_kind : Text → ObjectKind → Result RefError Unit
unfolding is_local_ref has_prefix
validate_ref_for_kind ref kind =
    if not (is_local_ref ref)
    then err (malformed_ref ref)
    else if not (holds (text_discrete ref owner_ref)) && not (has_prefix ref kind)
    then err (wrong_prefix ref kind)
    else ok tt

-- `RefEntry(...)`
unfoldable pub build_ref_entry : RefEntry → Result RefError RefEntry
unfolding validate_ref_for_kind
build_ref_entry e = elim (validate_ref_for_kind e.ref e.object_kind) [
  | err error ↦ err error
  | ok _ ↦ ok e
]
