-- ===== src/Tests/Client.antt =====
-- A call with retries at concrete inputs: a timeout, then an answer.
use my_digital_brain.Client.Params.{
  IsAdapted, Params, apply_chat_completion_compatibility,
  apply_chat_completion_compatibility-IsAdapted, contains, dashed, drop_temperature, is_gpt5_model,
  moved, rename_limit, replace_max_completion_tokens, replace_max_tokens, undashed,
}
use my_digital_brain.Client.Retry.{
  Client, attempts, budgeted, call_with_retries, compact, handle, is_context_length_error,
  is_retryable_error, mentions, prepare_chat_completion_params, present, round,
  should_retry_after_context_compaction, should_retry_with_max_completion_tokens,
  should_retry_with_max_tokens, should_retry_without_temperature, thrown, tried,
}
use my_digital_brain.Client.Retry.Attempts.{
  AnswersAt, IsReliable, LeftLoop, TransientBefore, call_with_retries-LeftLoop,
  call_with_retries-ok,
}
use my_digital_brain.Context.Limits.{lower}
use my_digital_brain.Base.{
  zero, suc, ap, sym, ◌∙◌, Option, Result, Text, [], arith, codes, err, false, none, ok, refl, some,
  starts_with, take, true, ℕ, ◌∷◌, ◌≡◌, ◌≢◌,
}

abbrev timeout : Text
timeout = codes "Request timeout"

abbrev refused : Text
refused = codes "invalid api key"

abbrev create : ℕ → Params Text → Result Text Text
create zero p = err timeout
create (suc zero) p = err timeout
create (suc (suc n)) p = ok (codes "done")

-- A context manager that refuses an empty text and cuts a text that is too long.
abbrev ensure : Text → Option Text × Text
ensure [] = (some (codes "messages must be a list"), [])
ensure (x ∷ xs) = (none, x ∷ take 3 xs)

abbrev client : Client
client = record {
  Messages = Text;
  Response = Text;
  is_empty = λ m. false;
  max_retries = 3;
  accepts_max_completion_tokens = true;
  ensure_context_budget = λ attempt p. ensure (p.messages);
  force_context_compaction = λ attempt exc p. ensure (p.messages);
  create = create;
}

abbrev params : Params Text
params = record {
  model = codes "GPT_5-mini";
  messages = codes "hello";
  temperature = some (codes "0");
  max_tokens = some (some 100);
  max_completion_tokens = none;
}

apply_chat_completion_compatibility-IsAdapted_example :
    IsAdapted params (apply_chat_completion_compatibility params)
apply_chat_completion_compatibility-IsAdapted_example =
    apply_chat_completion_compatibility-IsAdapted params

is_transient : is_retryable_error timeout ≡ true
unfolding is_retryable_error mentions contains starts_with lower
is_transient = refl

same_error : (exc : Text) → Path (Result Text Text) (err timeout) (err exc) → timeout ≡ exc
same_error exc e = ground arith

-- The messages that the context manager accepts.
abbrev IsFilled : Text → Type 0
IsFilled messages = messages ≢ []

filled : (x : ℕ) (xs : Text) → IsFilled (x ∷ xs)
filled x xs h = ground arith

ensured :
    (messages : Text)
    → IsFilled messages
    → ((ensure messages).0 ≡ none) × IsFilled (ensure messages).1
ensured [] good = absurd (good refl)
ensured (x ∷ xs) good = (refl, filled x (take 3 xs))

reliable : IsReliable client IsFilled
reliable = record {
  budget = λ attempt p good. ensured p.messages good;
  compaction = λ attempt exc p good. ensured p.messages good;
}

transient : TransientBefore client IsFilled 2
transient zero p exc h e = ap is_retryable_error (sym (same_error exc e)) ∙ is_transient
transient (suc zero) p exc h e = ap is_retryable_error (sym (same_error exc e)) ∙ is_transient
transient (suc (suc j)) p exc h e = absurd (omega arith)

answers : AnswersAt client IsFilled 2
answers p = (codes "done", refl)

call_with_retries-ok_example : (r : Text) × (call_with_retries client params ≡ ok r)
call_with_retries-ok_example =
    call_with_retries-ok client IsFilled 2 params reliable (filled b'h' (codes "ello"))
      (omega arith) (omega arith) transient answers

abbrev refusing : Client
refusing = record client { create = λ n p. err refused }

fails : call_with_retries refusing params ≡ err (thrown refused)
unfolding call_with_retries attempts round budgeted tried handle compact
    prepare_chat_completion_params should_retry_without_temperature
    should_retry_with_max_completion_tokens should_retry_with_max_tokens
    should_retry_after_context_compaction is_context_length_error is_retryable_error mentions
    contains starts_with lower present apply_chat_completion_compatibility is_gpt5_model dashed
    undashed drop_temperature rename_limit moved replace_max_tokens replace_max_completion_tokens
fails = refl

call_with_retries-LeftLoop_example : LeftLoop refusing refused
call_with_retries-LeftLoop_example = call_with_retries-LeftLoop refusing params refused fails
