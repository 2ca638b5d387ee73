-- ===== src/Ingest/Candidates/Logs.antt =====
-- ingestion/contracts/memory_logs.py, the validator of `MemoryLog`, and ingestion/validation.py,
-- `_validate_memory_log`. Sets of ids are lists without repetitions.
use my_digital_brain.Base.{
  Bool, List, Option, Result, Text, [], codes, elem, err, holds, if◌then◌else◌, length, ltb, none,
  ok, some, strip, suc, text_discrete, true, ℕ, ◌&&◌, ◌++◌, ◌+◌, ◌==◌, ◌∷◌, not,
}
use my_digital_brain.Ingest.Issues.{Issue, when, indexed, is_candidate_ref}
use my_digital_brain.Ingest.Validate.{validate_type}
use my_digital_brain.Ingest.Candidates.{MemoryLogLink, MemoryLog, is_given, is_empty}

-- `_validate_candidate_ref`
unfoldable pub validate_candidate_ref : Text → Text → List Text → List Issue
validate_candidate_ref ref path known_refs =
    when (is_candidate_ref ref && not (elem text_discrete ref known_refs)) path
      (codes "unknown_candidate_ref")

-- `for index, ref in enumerate(refs)`
unfoldable pub validate_refs : List Text → Text → ℕ → List Text → List Issue
validate_refs known_refs name index [] = []
validate_refs known_refs name index (ref ∷ refs) =
    validate_candidate_ref ref (indexed name index) known_refs
    ++ validate_refs known_refs name (index + 1) refs

abbrev pub host_type : Text
host_type = codes "HAS_MEMORY_LOG"

-- `link.relationship_type == "HAS_MEMORY_LOG"`
unfoldable pub is_host : MemoryLogLink → Bool
is_host link = holds (text_discrete link.relationship_type host_type)

-- `set(ids)`
unfoldable pub unique : List Text → List Text
unique [] = []
unique (id ∷ ids) = if elem text_discrete id ids then unique ids else id ∷ unique ids

-- The targets of the host links, and how many of them are primary.
unfoldable pub host_targets : List MemoryLogLink → List Text
host_targets [] = []
host_targets (link ∷ links) =
    if is_host link then link.target_id ∷ host_targets links else host_targets links

unfoldable pub primary_count : List MemoryLogLink → ℕ
primary_count [] = 0
primary_count (link ∷ links) =
    if is_host link && link.primary then suc (primary_count links) else primary_count links

unfoldable pub given_ids : Option Text → List Text
given_ids none = []
given_ids (some []) = []
given_ids (some (c ∷ s)) = (c ∷ s) ∷ []

-- `host_ids`
unfoldable pub host_ids : MemoryLog → List Text
host_ids log =
    unique (log.host_target_ids ++ host_targets log.links ++ given_ids log.primary_host_target_id)

-- Several hosts, and none that is the one primary host.
unfoldable pub lacks_primary : MemoryLog → Bool
lacks_primary log =
    ltb 1 (length (host_ids log))
    && not (primary_count log.links == 1)
    && not (is_given log.primary_host_target_id)

-- The `ValueError`s of `_validate_host_links`.
pub data LogError : Type 0 where
  no_host two_primary_links no_primary_host : LogError

-- `MemoryLog(...)`; its last check never fails, since the primary host is added to the hosts.
unfoldable pub build_memory_log : MemoryLog → Result LogError MemoryLog
build_memory_log log =
    if is_empty (host_ids log)
    then err no_host
    else if ltb 1 (primary_count log.links)
    then err two_primary_links
    else if lacks_primary log
    then err no_primary_host
    else ok log

-- One round of the loop over the links.
unfoldable pub link_issues : List Text → Text → ℕ → List MemoryLogLink → List Issue
link_issues known_refs path index [] = []
link_issues known_refs path index (link ∷ links) =
    validate_type link.relationship_type (indexed (path ++ codes ".links") index)
    ++ validate_candidate_ref link.target_id
        (indexed (path ++ codes ".links") index ++ codes ".target_id") known_refs
    ++ when (is_host link && is_empty link.target_id)
        (indexed (path ++ codes ".links") index ++ codes ".target_id")
        (codes "missing_memory_log_link_target")
    ++ link_issues known_refs path (index + 1) links

-- `(memory_log.local_ref or "").strip()` is empty
unfoldable pub is_blank : Option Text → Bool
is_blank none = true
is_blank (some s) = is_empty (strip s)

-- The issues of the texts and the hosts.
unfoldable pub host_issues : MemoryLog → Text → List Issue
host_issues log path =
    when (is_blank log.local_ref) (path ++ codes ".local_ref")
      (codes "missing_memory_log_local_ref")
    ++ when (is_blank (some log.log_text)) (path ++ codes ".log_text")
        (codes "missing_memory_log_text")
    ++ when (is_empty log.source_refs && is_empty log.evidence_refs) path
        (codes "missing_memory_log_evidence")
    ++ when (is_empty (host_ids log)) (path ++ codes ".links") (codes "missing_memory_log_host")
    ++ when (ltb 1 (primary_count log.links)) (path ++ codes ".links")
        (codes "duplicate_memory_log_primary_host")
    ++ when (lacks_primary log) (path ++ codes ".links") (codes "missing_memory_log_primary_host")

-- `if memory_log.primary_host_target_id`
unfoldable pub primary_issues : List Text → Text → Option Text → List Issue
primary_issues known_refs path (some (c ∷ s)) =
    validate_candidate_ref (c ∷ s) (path ++ codes ".primary_host_target_id") known_refs
primary_issues known_refs path _ = []

-- `_validate_memory_log`
unfoldable pub validate_memory_log : MemoryLog → Text → List Text → List Issue
validate_memory_log log path known_refs =
    host_issues log path
    ++ validate_refs known_refs (path ++ codes ".host_target_ids") 0 log.host_target_ids
    ++ primary_issues known_refs path log.primary_host_target_id
    ++ validate_refs known_refs (path ++ codes ".involved_target_ids") 0 log.involved_target_ids
    ++ link_issues known_refs path 0 log.links
