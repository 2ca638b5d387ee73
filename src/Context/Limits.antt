-- ===== src/Context/Limits.antt =====
-- ai/context.py: the context limit of a model, `ModelContextRegistry` and `ContextBudgetResolver`.
use my_digital_brain.Base.{
  ℕ, zero, suc, ◌+◌, ◌-◌, ◌≤◌, ◌<◌, ◌≡◌, ◌≢◌, inl, inr, Bool, false, ◌&&◌, Option, none, some, [],
  ◌∷◌, map, arith, ltb, leb, ◌==◌, if◌then◌else◌, length, take, drop, List-cases, Text, strip,
  is_digit, Table, get, put, get-put, get-put_self,
}

-- `s.lower()`, on ASCII
unfoldable pub lower : Text → Text
lower = map (λ c. if leb b'A' c && leb c b'Z' then c + 32 else c)

-- `normalize_model_name`; `none` reads as the empty name.
unfoldable pub normalize_model_name : Option Text → Text
unfolding lower
normalize_model_name none = []
normalize_model_name (some model) = lower (strip model)

-- `\d{n}` at the front, and what follows
unfoldable pub digits : ℕ → Text → Option Text
digits zero s = some s
digits (suc n) [] = none
digits (suc n) (c ∷ s) = if is_digit c then digits n s else none

-- `-` at the front, and what follows
unfoldable pub dash : Text → Option Text
dash [] = none
dash (c ∷ t) = if c == b'-' then some t else none

-- `-\d{4}-\d{2}-\d{2}`, and nothing behind it
unfoldable pub is_date : Text → Bool
unfolding digits dash is_digit
is_date s = elim (dash s) [
  | none ↦ false
  | some a ↦ elim (digits 4 a) [
    | none ↦ false
    | some b ↦ elim (dash b) [
      | none ↦ false
      | some c ↦ elim (digits 2 c) [
        | none ↦ false
        | some d ↦ elim (dash d) [
          | none ↦ false
          | some e ↦ elim (digits 2 e) [ none ↦ false | some rest ↦ length rest == 0 ]
        ]
      ]
    ]
  ]
]

-- `_DATE_SNAPSHOT_RE.match(s).group("base")`
unfoldable pub snapshot_base : Text → Option Text
unfolding is_date
snapshot_base s =
    let k = length s - 11 in
    if ltb 11 (length s) && is_date (drop k s) then some (take k s) else none

-- `ModelContextRegistry.lookup`
unfoldable pub registry_lookup : Table ℕ → Option Text → Option ℕ
unfolding snapshot_base normalize_model_name
registry_lookup tokens model = elim (normalize_model_name model) [
  | [] ↦ none
  | c ∷ s ↦ elim (get tokens (c ∷ s)) [
    | some n ↦ some n
    | none ↦ elim (snapshot_base (c ∷ s)) [ none ↦ none | some base ↦ get tokens base ]
  ]
]

-- `ContextBudgetResolver`
pub record Resolver : Type 0 where
  pub tier_context_tokens : Table ℕ
  pub model_context_tokens : Table ℕ
  pub fallback_tokens : ℕ
  pub registry : Table ℕ
  pub runtime_context_tokens : Table ℕ

-- `max(1, int(fallback or default))`
unfoldable pub fallback : ℕ → ℕ
fallback zero = 128000
fallback (suc n) = suc n

-- The limit of a named tier.
unfoldable pub tier_limit : Table ℕ → Text → Option ℕ
tier_limit tokens [] = none
tier_limit tokens (c ∷ s) = get tokens (c ∷ s)

-- `resolve`, below the runtime limits
unfoldable pub configured : Resolver → Text → Option Text → ℕ
unfolding fallback registry_lookup tier_limit
configured r model tier = elim (tier_limit r.tier_context_tokens (normalize_model_name tier)) [
  | some n ↦ n
  | none ↦ elim (get r.model_context_tokens model) [
    | some n ↦ n
    | none ↦ elim (registry_lookup r.registry (some model)) [
      | some n ↦ n
      | none ↦ fallback r.fallback_tokens
    ]
  ]
]

-- `resolve`
unfoldable pub resolve : Resolver → Option Text → Option Text → ℕ
resolve r model tier = elim (get r.runtime_context_tokens (normalize_model_name model)) [
  | some n ↦ n
  | none ↦ configured r (normalize_model_name model) tier
]

-- `parsed <= 0`, and `existing is None or parsed < existing`
unfoldable pub lowers : Option ℕ → ℕ → Bool
lowers none n = ltb 0 n
lowers (some existing) n = ltb 0 n && ltb n existing

-- `record_runtime_limit`
unfoldable pub record_runtime_limit : Option Text → Option ℕ → Resolver → Resolver
record_runtime_limit model none r = r
record_runtime_limit model (some n) r = elim (normalize_model_name model) [
  | [] ↦ r
  | c ∷ s ↦
      if lowers (get r.runtime_context_tokens (c ∷ s)) n
      then record r { runtime_context_tokens = put r.runtime_context_tokens (c ∷ s) n }
      else r
]

-- Where a model's runtime limit is known, recording a limit for any model never raises the limit
-- that it resolves to, under any tier.
pub runtime_limit_falls :
    (r : Resolver) (model model' : Option Text) (tokens : Option ℕ) (tier : Option Text) (n : ℕ)
    → get r.runtime_context_tokens (normalize_model_name model') ≡ some n
    → resolve (record_runtime_limit model tokens r) model' tier ≤ resolve r model' tier
unfolding resolve record_runtime_limit lowers
runtime_limit_falls r model model' none tier n known = omega arith
runtime_limit_falls r model model' (some k) tier n known =
    elim (List-cases (normalize_model_name model)) [
      | inl e ↦ ground arith
      | inr (c, s, e) ↦
          ground (arith, get-put r.runtime_context_tokens (c ∷ s) (normalize_model_name model') k)
    ]

-- Once a positive limit is recorded for a named model, the model resolves to at most that limit,
-- under every tier.
pub resolve-record :
    (r : Resolver) (model : Option Text) (tier : Option Text) (n : ℕ)
    → normalize_model_name model ≢ []
    → 0 < n
    → resolve (record_runtime_limit model (some n) r) model tier ≤ n
unfolding resolve record_runtime_limit lowers
resolve-record r model tier n named positive = elim (List-cases (normalize_model_name model)) [
  | inl e ↦ absurd (named e)
  | inr (c, s, e) ↦ ground (arith, get-put_self r.runtime_context_tokens (c ∷ s) n)
]
