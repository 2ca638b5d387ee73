-- ===== src/Client/Retry/Attempts.antt =====
-- What a call with retries returns, and which exceptions leave it.
use my_digital_brain.Base.{
  ◌∙◌, ℕ, zero, suc, ◌+◌, ◌≤◌, ◌<◌, ◌≡◌, refl, true, ◌⊎◌, inl, inr, arith, Text, ok, err,
  Result-cases, ◌≢◌, dec_lt, ap, false, some, none,
}
use my_digital_brain.Client.Params.{
  Params, replace_max_tokens, replace_max_completion_tokens, drop_temperature,
  apply_chat_completion_compatibility, apply_chat_completion_compatibility-IsAdapted,
}
use my_digital_brain.Client.Retry.{
  prepare_chat_completion_params, Client, State, Handled, go_on, reraise, handle,
  is_retryable_error, round, budgeted, attempts, call_with_retries, compact, tried, thrown,
}

module _ (c : Client) where
  Handled-cases : (h : Handled c) → ((s : State c) × (h ≡ go_on s)) ⊎ ((e : Text) × (h ≡ reraise e))
  Handled-cases (go_on s) = inl (s, refl)
  Handled-cases (reraise e) = inr (e, refl)

  compact-raises :
      (attempt : ℕ) (exc e : Text) (s : State c)
      → compact c attempt exc s ≡ reraise e
      → (c.force_context_compaction attempt exc s.params).0 ≡ some e
  unfolding compact
  compact-raises attempt exc e s h = ground arith

  -- What leaves the handler is what was caught, where it is not retried, or comes from the
  -- compaction.
  handle-raises :
      (attempt : ℕ) (exc e : Text) (s : State c)
      → handle c attempt exc s ≡ reraise e
      → ((exc ≡ e) × ((is_retryable_error e ≡ false) ⊎ (attempt ≡ c.max_retries)))
        ⊎ ((c.force_context_compaction attempt exc s.params).0 ≡ some e)
  unfolding handle
  handle-raises attempt exc e s h = ground (arith, compact-raises attempt exc e s)

  replaced-messages :
      (p : Params c.Messages)
      → ((replace_max_tokens p).messages ≡ p.messages)
        × ((replace_max_completion_tokens p).messages ≡ p.messages)
        × ((drop_temperature p).messages ≡ p.messages)
  unfolding replace_max_tokens replace_max_completion_tokens drop_temperature
  replaced-messages p = (ground arith, ground arith, refl)

  compact-messages :
      (attempt : ℕ) (exc : Text) (s t : State c)
      → compact c attempt exc s ≡ go_on t
      → t.params.messages ≡ (c.force_context_compaction attempt exc s.params).1
  unfolding compact
  compact-messages attempt exc s t h = ground arith

  -- The next round has the messages of this one, or those of the compaction.
  handle-messages :
      (attempt : ℕ) (exc : Text) (s t : State c)
      → handle c attempt exc s ≡ go_on t
      → (t.params.messages ≡ s.params.messages)
        ⊎ (t.params.messages ≡ (c.force_context_compaction attempt exc s.params).1)
  unfolding handle
  handle-messages attempt exc s t h =
      ground (arith, replaced-messages s.params, compact-messages attempt exc s t)

  prepare-messages :
      (p : Params c.Messages) → (prepare_chat_completion_params c p).messages ≡ p.messages
  unfolding prepare_chat_completion_params
  prepare-messages p =
      let adapted = apply_chat_completion_compatibility p in
      let same = (apply_chat_completion_compatibility-IsAdapted p).messages in
      ground (arith, same, (replaced-messages adapted).1)

  module _ (Good : c.Messages → Type 0) where
    -- The context manager raises nothing on good messages, and leaves good messages.
    pub record IsReliable : Type 0 where
      pub budget :
          (attempt : ℕ) (p : Params c.Messages)
          → Good p.messages
          → ((c.ensure_context_budget attempt p).0 ≡ none)
            × Good (c.ensure_context_budget attempt p).1
      pub compaction :
          (attempt : ℕ) (exc : Text) (p : Params c.Messages)
          → Good p.messages
          → ((c.force_context_compaction attempt exc p).0 ≡ none)
            × Good (c.force_context_compaction attempt exc p).1

    -- An exception that may be retried, before the last attempt, leads to the next round.
    handle-transient :
        (attempt : ℕ) (exc e : Text) (s : State c)
        → IsReliable
        → Good s.params.messages
        → attempt < c.max_retries
        → is_retryable_error exc ≡ true
        → handle c attempt exc s ≢ reraise e
    handle-transient attempt exc e s reliable good early transient h =
        let (calm, left) = reliable.compaction attempt exc s.params good in
        ground (arith, handle-raises attempt exc e s h)

    handle-Good :
        (attempt : ℕ) (exc : Text) (s t : State c)
        → IsReliable
        → Good s.params.messages
        → handle c attempt exc s ≡ go_on t
        → Good t.params.messages
    handle-Good attempt exc s t reliable good h = elim (handle-messages attempt exc s t h) [
      | inl same ↦ rw same good
      | inr compacted ↦ rw compacted (reliable.compaction attempt exc s.params good).1
    ]

    tried-created :
        (attempt : ℕ) (p : Params c.Messages)
        → IsReliable
        → Good p.messages
        → tried c attempt p ≡ c.create attempt (budgeted c attempt p)
    unfolding tried
    tried-created attempt p reliable good = rw ((reliable.budget attempt p good).0, tried) refl

    -- The provider's exceptions before the attempt `n` may all be retried.
    abbrev pub TransientBefore : ℕ → Type 0
    TransientBefore n =
        (j : ℕ) (p : Params c.Messages) (exc : Text)
        → j < n
        → c.create j p ≡ err exc
        → is_retryable_error exc ≡ true

    -- The provider answers the attempt `n`.
    abbrev pub AnswersAt : ℕ → Type 0
    AnswersAt n = (p : Params c.Messages) → (r : c.Response) × (c.create n p ≡ ok r)

    earlier :
        (attempt n : ℕ) (p : Params c.Messages) (exc : Text)
        → attempt ≤ n
        → AnswersAt n
        → c.create attempt p ≡ err exc
        → attempt < n
    earlier attempt n p exc low answers e = elim (dec_lt attempt n) [
      | yes h ↦ h
      | no h ↦
          let same : attempt ≡ n = omega arith in
          let (r, answered) = answers p in absurd (ground (arith, ap (λ k. c.create k p) same))
    ]

    attempts-ok :
        (left attempt n : ℕ) (s : State c)
        → IsReliable
        → Good s.params.messages
        → attempt ≤ n
        → n < attempt + left
        → n ≤ c.max_retries
        → TransientBefore n
        → AnswersAt n
        → (r : c.Response) × (attempts c left attempt s ≡ ok r)
    unfolding attempts round budgeted
    attempts-ok zero attempt n s reliable good low high within transient answers =
        absurd (omega arith)
    attempts-ok (suc left) attempt n s reliable good low high within transient answers =
        let p = budgeted c attempt s.params in
        let sent = record s { params = p } in
        let kept = (reliable.budget attempt s.params good).1 in
        let created = tried-created attempt s.params reliable good in
        elim (Result-cases (c.create attempt p)) [
          | inl (r, e) ↦ (r, rw (created ∙ e, attempts) refl)
          | inr (exc, e) ↦
              let early = earlier attempt n p exc low answers e in
              elim (Handled-cases (handle c attempt exc sent)) [
                | inl (t, h) ↦
                    let (r, done) =
                      attempts-ok left (attempt + 1) n t reliable
                        (handle-Good attempt exc sent t reliable kept h) (omega arith) (omega arith)
                        within transient answers in
                    (r, rw (created ∙ e, attempts, h) done)
                | inr (e', h) ↦ absurd (
                    handle-transient attempt exc e' sent reliable kept (omega arith)
                      (transient attempt p exc early e) h)
              ]
        ]

    -- If the context manager raises nothing on good messages and leaves good messages, the
    -- messages are good, the provider answers the attempt `n`, which is one of the attempts,
    -- whatever the parameters, and every exception that it may raise at an earlier number may be
    -- retried, then the call returns a response.
    pub call_with_retries-ok :
        (n : ℕ) (p : Params c.Messages)
        → IsReliable
        → Good p.messages
        → 1 ≤ n
        → n ≤ c.max_retries
        → TransientBefore n
        → AnswersAt n
        → (r : c.Response) × (call_with_retries c p ≡ ok r)
    unfolding call_with_retries
    call_with_retries-ok n p reliable good low high transient answers =
        attempts-ok c.max_retries 1 n _ reliable (rw (prepare-messages p) good) low (omega arith)
          high transient answers

  -- The attempt at which the exception left the loop: `caught` is the exception of its `try`
  -- block, from the context manager or from the provider. It is the exception that left, and is
  -- not retried or was raised at the last attempt; or the compaction raised while it was handled.
  pub record LeftLoop (exc : Text) : Type 0 where
    attempt : ℕ
    params : Params c.Messages
    caught : Text
    made : attempt ≤ c.max_retries
    failure : tried c attempt params ≡ err caught
    reason :
        ((caught ≡ exc) × ((is_retryable_error exc ≡ false) ⊎ (attempt ≡ c.max_retries)))
        ⊎ ((c.force_context_compaction attempt caught (budgeted c attempt params)).0 ≡ some exc)

  attempts-LeftLoop :
      (left attempt : ℕ) (s : State c) (exc : Text)
      → attempt + left ≤ c.max_retries + 1
      → attempts c left attempt s ≡ err (thrown exc)
      → LeftLoop exc
  unfolding attempts round
  attempts-LeftLoop zero attempt s exc room h = absurd (ground arith)
  attempts-LeftLoop (suc left) attempt s exc room h =
      let sent = record s { params = budgeted c attempt s.params } in
      elim (Result-cases (tried c attempt s.params)) [
        | inl (r, e) ↦ absurd (ground arith)
        | inr (caught, e) ↦ elim (Handled-cases (handle c attempt caught sent)) [
          | inl (t, g) ↦ attempts-LeftLoop left (attempt + 1) t exc (omega arith) (ground arith)
          | inr (e', g) ↦
              let same : e' ≡ exc = ground arith in
              record {
                attempt = attempt;
                params = s.params;
                caught = caught;
                made = omega arith;
                failure = e;
                reason = handle-raises attempt caught exc sent (g ∙ ap reraise same);
              }
        ]
      ]

  -- An exception that the call raises, other than the exhaustion of its attempts, left the loop at
  -- an attempt within the limit: the `try` block raised it, in the context manager or at the
  -- provider, and it is not to be retried or the attempt was the last; or the forced compaction
  -- raised it.
  pub call_with_retries-LeftLoop :
      (p : Params c.Messages) (exc : Text) → call_with_retries c p ≡ err (thrown exc) → LeftLoop exc
  unfolding call_with_retries
  call_with_retries-LeftLoop p exc = attempts-LeftLoop c.max_retries 1 _ exc (omega arith)
