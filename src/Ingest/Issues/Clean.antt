-- ===== src/Ingest/Issues/Clean.antt =====
-- Issues without an error, and what they say of counted references and of labels.
use my_digital_brain.Base.{
  Bool, List, Option, Table, Text, [], arith, codes, elem, false, get, get-put, ite, lookup, ltb,
  none, put, refl, some, some_of, suc, text_discrete, true, ℕ, ◌&&◌, ◌++◌, ◌+◌, ◌∷◌, ◌≡◌, ◌≤◌, not,
}
use my_digital_brain.Ingest.Issues.{
  Issue, is_error, from_issues, when, issue, counter, repeated_issues, is_candidate_ref,
}

-- Issues without an error.
abbrev pub IsClean : List Issue → Type 0
IsClean issues = some_of is_error issues ≡ false

pub IsClean-append : (xs ys : List Issue) → IsClean (xs ++ ys) → IsClean xs × IsClean ys
IsClean-append [] ys h = (refl, h)
IsClean-append (x ∷ xs) ys h = ground (arith, IsClean-append xs ys)

pub IsClean-when : (b : Bool) (path code : Text) → IsClean (when b path code) → b ≡ false
unfolding when issue is_error
IsClean-when true path code h = absurd (ground arith)
IsClean-when false path code h = refl

pub valid-IsClean : (issues : List Issue) → (from_issues issues).is_valid ≡ true → IsClean issues
unfolding from_issues
valid-IsClean issues h = ground arith

-- How often a reference occurs.
abbrev pub occurrences : Text → List Text → ℕ
occurrences ref [] = 0
occurrences ref (r ∷ refs) =
    ite (text_discrete r ref) (suc (occurrences ref refs)) (occurrences ref refs)

abbrev pub count_of : Option ℕ → ℕ
count_of none = 0
count_of (some n) = n

pub counter-occurrences :
    (counts : Table ℕ) (refs : List Text) (ref : Text)
    → count_of (get (counter counts refs) ref) ≡ count_of (get counts ref) + occurrences ref refs
unfolding counter
counter-occurrences counts [] ref = omega arith
counter-occurrences counts (r ∷ refs) ref =
    let c = elim (get counts r) as (λ _. ℕ) [ none ↦ 1 | some n ↦ n + 1 ] in
    ground (arith, counter-occurrences (put counts r c) refs ref, get-put counts r ref c)

pub repeated-once :
    (code : Text) (counts : Table ℕ) (ref : Text)
    → IsClean (repeated_issues code counts)
    → count_of (get counts ref) ≤ 1
unfolding repeated_issues get lookup
repeated-once code [] ref h = omega arith
repeated-once code ((r, n) ∷ counts) ref h =
    let (first, rest) = IsClean-append (when (ltb 1 n) (codes "local_ref") code) _ h in
    ground (arith, IsClean-when _ _ _ first, repeated-once code counts ref rest)

-- An endpoint that is a candidate is one of the references.
abbrev pub IsEndpoint : List Text → Text → Type 0
IsEndpoint refs ref = is_candidate_ref ref && not (elem text_discrete ref refs) ≡ false
