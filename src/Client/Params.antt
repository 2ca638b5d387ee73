-- ===== src/Client/Params.antt =====
-- ai/client/compatibility.py, and the changes of parameters in ai/client/retrying.py.
use my_digital_brain.Base.{
  refl, ℕ, ◌≡◌, Bool, ◌||◌, ◌==◌, Option, none, some, [], ◌∷◌, map, if◌then◌else◌, Text, codes,
  starts_with, arith, Bool-cases, inl, inr, true, false, ap, ◌∙◌, ◌≢◌, Option-cases,
}
use my_digital_brain.Context.Limits.{lower}

-- The entries of `params` that the client reads; the outer `none` of a limit is a missing key, the
-- inner one the value `None`. The value of the temperature is passed on.
pub record Params (Messages : Type 0) : Type 0 where
  pub model : Text
  pub messages : Messages
  pub temperature : Option Text
  pub max_tokens : Option (Option ℕ)
  pub max_completion_tokens : Option (Option ℕ)

-- `needle in s`
unfoldable pub contains : Text → Text → Bool
unfolding starts_with
contains [] needle = starts_with [] needle
contains (c ∷ s) needle = starts_with (c ∷ s) needle || contains s needle

-- `s.replace("_", "-")`
unfoldable pub dashed : Text → Text
dashed = map (λ c. if c == b'_' then b'-' else c)

-- `s.replace("-", "")`
unfoldable pub undashed : Text → Text
undashed [] = []
undashed (c ∷ s) = if c == b'-' then undashed s else c ∷ undashed s

-- `is_gpt5_model`
unfoldable pub is_gpt5_model : Text → Bool
unfolding contains dashed undashed lower
is_gpt5_model model =
    contains (undashed (dashed (lower model))) (codes "gpt5")
    || contains (dashed (lower model)) (codes "gpt-5")

-- What `max_completion_tokens` is after a value of `max_tokens` was moved to it, where a value that
-- is there stays.
unfoldable pub moved : Option (Option ℕ) → Option (Option ℕ) → Option (Option ℕ)
moved (some (some n)) none = some (some n)
moved _ there = there

module _ {Messages : Type 0} where
  -- `params.pop("temperature", None)`
  unfoldable pub drop_temperature : Params Messages → Params Messages
  drop_temperature p = record p { temperature = none }

  -- The branch of `apply_chat_completion_compatibility` for the other name of the limit.
  unfoldable pub rename_limit : Params Messages → Params Messages
  unfolding moved
  rename_limit p = record p {
    max_tokens = none;
    max_completion_tokens = moved p.max_tokens p.max_completion_tokens;
  }

  -- `apply_chat_completion_compatibility`
  unfoldable pub apply_chat_completion_compatibility : Params Messages → Params Messages
  unfolding is_gpt5_model drop_temperature rename_limit
  apply_chat_completion_compatibility p =
      if is_gpt5_model p.model then rename_limit (drop_temperature p) else p

  -- `_replace_max_tokens`: here a value that is there is overwritten.
  unfoldable pub replace_max_tokens : Params Messages → Params Messages
  replace_max_tokens p = elim p.max_tokens [
    | some (some n) ↦ record p { max_tokens = none; max_completion_tokens = some (some n) }
    | _ ↦ record p { max_tokens = none }
  ]

  -- `_replace_max_completion_tokens`
  unfoldable pub replace_max_completion_tokens : Params Messages → Params Messages
  unfolding moved
  replace_max_completion_tokens p = record p {
    max_completion_tokens = none;
    max_tokens = moved p.max_completion_tokens p.max_tokens;
  }

  adapted :
      (p : Params Messages)
      → is_gpt5_model p.model ≡ true
      → apply_chat_completion_compatibility p ≡ rename_limit (drop_temperature p)
  unfolding apply_chat_completion_compatibility
  adapted p e = ground arith

  left_alone :
      (p : Params Messages)
      → is_gpt5_model p.model ≡ false
      → apply_chat_completion_compatibility p ≡ p
  unfolding apply_chat_completion_compatibility
  left_alone p e = ground arith

  same_model : (p : Params Messages) → (rename_limit (drop_temperature p)).model ≡ p.model
  unfolding rename_limit drop_temperature
  same_model p = refl

  renamed_twice :
      (p : Params Messages)
      → rename_limit (drop_temperature (rename_limit (drop_temperature p)))
        ≡ rename_limit (drop_temperature p)
  unfolding rename_limit drop_temperature moved
  renamed_twice p = ground arith

  apply_chat_completion_compatibility_idem :
      (p : Params Messages)
      → apply_chat_completion_compatibility (apply_chat_completion_compatibility p)
        ≡ apply_chat_completion_compatibility p
  apply_chat_completion_compatibility_idem p = elim (Bool-cases (is_gpt5_model p.model)) [
    | inl e ↦ rw (adapted p e) (
        adapted (rename_limit (drop_temperature p)) (ap is_gpt5_model (same_model p) ∙ e)
        ∙ renamed_twice p)
    | inr e ↦ ap apply_chat_completion_compatibility (left_alone p e)
  ]

  -- The parameters `q` are `p` without a temperature and with the limit under its new name: the
  -- value that is there, otherwise that of the old name.
  pub record IsRenamed (p q : Params Messages) : Type 0 where
    temperature : q.temperature ≡ none
    max_tokens : q.max_tokens ≡ none
    kept :
        (limit : Option ℕ)
        → p.max_completion_tokens ≡ some limit
        → q.max_completion_tokens ≡ some limit
    moves :
        (n : ℕ)
        → p.max_completion_tokens ≡ none
        → p.max_tokens ≡ some (some n)
        → q.max_completion_tokens ≡ some (some n)
    unlimited :
        p.max_completion_tokens ≡ none
        → ((n : ℕ) → p.max_tokens ≢ some (some n))
        → q.max_completion_tokens ≡ none

  rename_limit-IsRenamed : (p : Params Messages) → IsRenamed p (rename_limit (drop_temperature p))
  unfolding rename_limit drop_temperature moved
  rename_limit-IsRenamed p = record {
    temperature = refl;
    max_tokens = refl;
    kept = λ limit h. ground arith;
    moves = λ n h k. ground arith;
    unlimited = λ h no. elim (Option-cases p.max_tokens) [
      | inl e ↦ ground arith
      | inr (limit, e) ↦ elim (Option-cases limit) [
        | inl e' ↦ ground arith
        | inr (n, e') ↦ absurd (no n (e ∙ ap some e'))
      ]
    ];
  }

  -- What adapting parameters to their model means.
  pub record IsAdapted (p q : Params Messages) : Type 0 where
    pub model : q.model ≡ p.model
    pub messages : q.messages ≡ p.messages
    gpt5 : is_gpt5_model p.model ≡ true → IsRenamed p q
    other : is_gpt5_model p.model ≡ false → q ≡ p
    stable : apply_chat_completion_compatibility q ≡ q

  renamed-same :
      (p : Params Messages)
      → ((rename_limit (drop_temperature p)).model ≡ p.model)
        × ((rename_limit (drop_temperature p)).messages ≡ p.messages)
  unfolding rename_limit drop_temperature
  renamed-same p = (refl, refl)

  -- Adapting keeps the model and the messages. For a model of the GPT-5 family it removes the
  -- temperature and renames the limit: a value under the new name stays, and otherwise that of
  -- the old name is moved there. Parameters of other models are not changed, and adapting twice is
  -- adapting once.
  pub apply_chat_completion_compatibility-IsAdapted :
      (p : Params Messages) → IsAdapted p (apply_chat_completion_compatibility p)
  apply_chat_completion_compatibility-IsAdapted p = elim (Bool-cases (is_gpt5_model p.model)) [
    | inl e ↦ record {
      model = ap (λ q. q.model) (adapted p e) ∙ (renamed-same p).0;
      messages = ap (λ q. q.messages) (adapted p e) ∙ (renamed-same p).1;
      gpt5 = λ h. rw (adapted p e) (rename_limit-IsRenamed p);
      other = λ h. absurd (ground arith);
      stable = apply_chat_completion_compatibility_idem p;
    }
    | inr e ↦ record {
      model = ap (λ q. q.model) (left_alone p e);
      messages = ap (λ q. q.messages) (left_alone p e);
      gpt5 = λ h. absurd (ground arith);
      other = λ h. left_alone p e;
      stable = apply_chat_completion_compatibility_idem p;
    }
  ]
