-- ===== src/Ingest/Issues.antt =====
-- ingestion/contracts/validation.py: `ValidationIssue` and `ValidationResult`. The message and the
-- details of an issue, which only the model reads, are left out.
pub mod Clean
use my_digital_brain.Base.{
  Bool, List, Table, Text, [], codes, decimal, false, get, if◌then◌else◌, ltb, none, put, some,
  some_of, starts_with, true, ℕ, ◌++◌, ◌+◌, ◌∷◌, not,
}

-- The severities of an issue.
pub data Severity : Type 0 where
  error warning : Severity

-- `ValidationIssue`
pub record Issue : Type 0 where
  pub field_path : Text
  pub code : Text
  pub severity : Severity

-- `_issue` of ingestion/validation.py
unfoldable pub issue : Text → Text → Issue
issue field_path code = record { field_path = field_path; code = code; severity = error }

-- `ValidationResult`
pub record ValidationResult : Type 0 where
  pub is_valid : Bool
  pub issues : List Issue

unfoldable pub is_error : Issue → Bool
is_error i = elim i.severity [ error ↦ true | warning ↦ false ]

-- `ValidationResult.from_issues`
unfoldable pub from_issues : List Issue → ValidationResult
unfolding is_error
from_issues issues = record { is_valid = not (some_of is_error issues); issues = issues }

-- One issue if the test holds.
unfoldable pub when : Bool → Text → Text → List Issue
unfolding issue
when test field_path code = if test then issue field_path code ∷ [] else []

-- `f"{name}[{index}]"`
unfoldable pub indexed : Text → ℕ → Text
indexed name index = name ++ codes "[" ++ decimal index ++ codes "]"

-- `Counter(refs)`, from counts that are there.
unfoldable pub counter : Table ℕ → List Text → Table ℕ
counter counts [] = counts
counter counts (ref ∷ refs) =
    counter (put counts ref (elim (get counts ref) [ none ↦ 1 | some n ↦ n + 1 ])) refs

-- The loop over the counts, for issues with the code.
unfoldable pub repeated_issues : Text → Table ℕ → List Issue
unfolding when
repeated_issues code [] = []
repeated_issues code ((ref, n) ∷ counts) =
    when (ltb 1 n) (codes "local_ref") code ++ repeated_issues code counts

-- `ref.startswith("CANDIDATE_")`
unfoldable pub is_candidate_ref : Text → Bool
is_candidate_ref ref = starts_with ref (codes "CANDIDATE_")
