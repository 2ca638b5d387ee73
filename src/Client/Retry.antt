-- ===== src/Client/Retry.antt =====
-- ai/client/retrying.py: `GenAIRetryMixin`.
pub mod Attempts
use my_digital_brain.Base.{
  ℕ, zero, suc, ◌+◌, ◌==◌, Bool, true, false, not, ◌&&◌, ◌||◌, Option, none, some, List, [], ◌∷◌,
  if◌then◌else◌, some_of, Text, codes, Result, ok, err, ◌⊎◌, inl, inr,
}
use my_digital_brain.Context.Limits.{lower}
use my_digital_brain.Client.Params.{
  Params, contains, drop_temperature, replace_max_tokens, replace_max_completion_tokens,
  apply_chat_completion_compatibility,
}

-- The client around the loop: the provider, which answers the `n`-th attempt or raises an
-- exception, of which only `str(exc)` counts, and the context manager. The two calls of the context
-- manager change the messages of the parameters and may raise: they return the exception, if there
-- is one, and the messages that they leave. They read what changes between the attempts, so that
-- they get the number of the attempt.
pub record Client : Type 1 where
  pub Messages : Type 0
  pub Response : Type 0
  pub is_empty : Messages → Bool
  pub max_retries : ℕ
  -- `_chat_completion_create_accepts("max_completion_tokens")`
  pub accepts_max_completion_tokens : Bool
  -- `_ensure_context_budget`
  pub ensure_context_budget : ℕ → Params Messages → Option Text × Messages
  -- `_record_context_limit_from_error`, then `_force_context_compaction`
  pub force_context_compaction : ℕ → Text → Params Messages → Option Text × Messages
  -- `chat.completions.create`
  pub create : ℕ → Params Messages → Result Text Response

-- `any(marker in message for marker in markers)`, for the message in lower case
unfoldable pub mentions : Text → List Text → Bool
unfolding contains
mentions message markers = some_of (contains (lower message)) markers

-- `key in params`
unfoldable pub present {ℓ} : {A : Type ℓ} → Option A → Bool
present none = false
present (some a) = true

-- `is_context_length_error`
unfoldable pub is_context_length_error : Text → Bool
unfolding mentions
is_context_length_error exc = mentions exc (
    codes "context_length_exceeded"
    ∷ codes "maximum context length"
    ∷ codes "max context length"
    ∷ codes "context window"
    ∷ codes "too many tokens"
    ∷ [])

-- `_is_retryable_error`
unfoldable pub is_retryable_error : Text → Bool
unfolding mentions
is_retryable_error exc = mentions exc (
    codes "rate limit"
    ∷ codes "timeout"
    ∷ codes "temporarily unavailable"
    ∷ codes "server error"
    ∷ codes "502"
    ∷ codes "503"
    ∷ codes "504"
    ∷ [])

module _ (c : Client) where
  -- `_should_retry_without_temperature`
  unfoldable pub should_retry_without_temperature : Text → Params c.Messages → Bool
  unfolding mentions present
  should_retry_without_temperature exc p =
      present p.temperature
      && mentions exc (codes "temperature" ∷ [])
      && mentions exc
          (codes "does not support" ∷ codes "only the default" ∷ codes "unsupported_value" ∷ [])

  -- `_should_retry_with_max_completion_tokens`
  unfoldable pub should_retry_with_max_completion_tokens : Text → Params c.Messages → Bool
  unfolding mentions present
  should_retry_with_max_completion_tokens exc p =
      present p.max_tokens
      && mentions exc (codes "max_tokens" ∷ [])
      && mentions exc (
          codes "not supported with this model"
          ∷ codes "use 'max_completion_tokens' instead"
          ∷ codes "unsupported_parameter"
          ∷ [])

  -- `_should_retry_with_max_tokens`
  unfoldable pub should_retry_with_max_tokens : Text → Params c.Messages → Bool
  unfolding mentions present
  should_retry_with_max_tokens exc p =
      present p.max_completion_tokens
      && mentions exc (codes "max_completion_tokens" ∷ [])
      && mentions exc (
          codes "unexpected keyword argument"
          ∷ codes "unsupported_parameter"
          ∷ codes "unrecognized request argument"
          ∷ codes "not supported"
          ∷ [])

  -- `_should_retry_after_context_compaction`
  unfoldable pub should_retry_after_context_compaction : Text → Params c.Messages → Bool
  unfolding is_context_length_error
  should_retry_after_context_compaction exc p =
      is_context_length_error exc && not (c.is_empty p.messages)

  -- `_prepare_chat_completion_params`
  unfoldable pub prepare_chat_completion_params : Params c.Messages → Params c.Messages
  unfolding present
  prepare_chat_completion_params p =
      let updated = apply_chat_completion_compatibility p in
      if present updated.max_completion_tokens && not c.accepts_max_completion_tokens
      then replace_max_completion_tokens updated
      else updated

  -- The variables of the loop.
  pub record State : Type 0 where
    pub params : Params c.Messages
    pub adjusted_for_temperature : Bool
    pub adjusted_for_max_tokens : Bool
    pub adjusted_for_context : Bool

  -- What the handler of an exception does: the loop goes on, or the exception is raised again.
  pub data Handled : Type 0 where
    go_on : State → Handled
    reraise : Text → Handled

  -- `_force_context_compaction`, whose own exception leaves the `except` block
  unfoldable pub compact : ℕ → Text → State → Handled
  compact attempt exc s =
      let (failure, messages) = c.force_context_compaction attempt exc s.params in
      elim failure [
        | some e ↦ reraise e
        | none ↦ go_on (record s {
          params = record s.params { messages = messages };
          adjusted_for_context = true;
        })
      ]

  -- The `except` block; the pause before a new attempt stays out.
  unfoldable pub handle : ℕ → Text → State → Handled
  unfolding compact
  handle attempt exc s =
      if not s.adjusted_for_temperature && should_retry_without_temperature exc s.params
      then go_on (record s { params = drop_temperature s.params; adjusted_for_temperature = true })
      else if not s.adjusted_for_max_tokens && should_retry_with_max_completion_tokens exc s.params
      then go_on (record s { params = replace_max_tokens s.params; adjusted_for_max_tokens = true })
      else if not s.adjusted_for_max_tokens && should_retry_with_max_tokens exc s.params
      then go_on (record s {
        params = replace_max_completion_tokens s.params;
        adjusted_for_max_tokens = true;
      })
      else if not s.adjusted_for_context && should_retry_after_context_compaction exc s.params
      then compact attempt exc s
      else if not (is_retryable_error exc) || (attempt == c.max_retries)
      then reraise exc
      else go_on s

  -- The errors of the call: an exception that leaves the loop, or `Retries exhausted`.
  pub data Failure : Type 0 where
    thrown : Text → Failure
    exhausted : Failure

  -- One round, for the outcome of the `try` block: the result of the call, or the next round.
  unfoldable pub round : ℕ → State → Result Text c.Response → Result Failure c.Response ⊎ State
  unfolding handle
  round attempt s (ok response) = inl (ok response)
  round attempt s (err exc) = elim (handle attempt exc s) [
    | go_on s' ↦ inr s'
    | reraise e ↦ inl (err (thrown e))
  ]

  -- The parameters after `self._ensure_context_budget(params)`: the loop keeps this dictionary.
  unfoldable pub budgeted : ℕ → Params c.Messages → Params c.Messages
  budgeted attempt p = record p { messages = (c.ensure_context_budget attempt p).1 }

  -- The `try` block
  unfoldable pub tried : ℕ → Params c.Messages → Result Text c.Response
  unfolding budgeted
  tried attempt p = elim (c.ensure_context_budget attempt p).0 [
    | some exc ↦ err exc
    | none ↦ c.create attempt (budgeted attempt p)
  ]

  -- The loop, with so many attempts left.
  unfoldable pub attempts : ℕ → ℕ → State → Result Failure c.Response
  unfolding round budgeted tried
  attempts zero attempt s = err exhausted
  attempts (suc left) attempt s =
      let sent = record s { params = budgeted attempt s.params } in
      elim (round attempt sent (tried attempt s.params)) [
        | inl outcome ↦ outcome
        | inr s' ↦ attempts left (attempt + 1) s'
      ]

  -- `_call_with_retries`
  unfoldable pub call_with_retries : Params c.Messages → Result Failure c.Response
  unfolding attempts prepare_chat_completion_params
  call_with_retries p = attempts c.max_retries 1 (record {
    params = prepare_chat_completion_params p;
    adjusted_for_temperature = false;
    adjusted_for_max_tokens = false;
    adjusted_for_context = false;
  })
