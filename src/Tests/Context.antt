-- ===== src/Tests/Context.antt =====
-- Context limits at concrete inputs.
use my_digital_brain.Context.Compaction.{
  Manager, Summarizer, assemble, compact_messages, first_fit, last, last_resort, recent_start,
  split_system_message, summarize, tool_at, truncate_messages, truncated, walk_back, with_summary,
}
use my_digital_brain.Context.Compaction.Budget.{
  IsTail, IsLastResort, compact_messages-fits, recent_start-settled, truncate_messages-IsTail,
}
use my_digital_brain.Context.Limits.{
  Resolver, lower, normalize_model_name, record_runtime_limit, resolve, resolve-record,
  runtime_limit_falls,
}
use my_digital_brain.Base.{
  Bool, List, Option, Text, [], arith, codes, false, get, is_space, length, lookup, lstrip, none,
  refl, some, strip, text_discrete, true, ℕ, ℕ_discrete, ◌∷◌, ◌≡◌, ◌≢◌, ◌≤◌, ◌==◌, ◌+◌, ◌⊎◌,
}

abbrev model : Option Text
model = some (codes "GPT-4o")

abbrev resolver : Resolver
resolver = record {
  tier_context_tokens = [];
  model_context_tokens = [];
  fallback_tokens = 0;
  registry = (codes "gpt-4o", 128000) ∷ [];
  runtime_context_tokens = (codes "gpt-4o", 9000) ∷ [];
}

known : get resolver.runtime_context_tokens (normalize_model_name model) ≡ some 9000
unfolding get lookup text_discrete ℕ_discrete normalize_model_name lower strip lstrip is_space
known = refl

named : normalize_model_name model ≢ []
unfolding normalize_model_name lower strip lstrip is_space
named = λ e. ground arith

runtime_limit_falls_example :
    resolve (record_runtime_limit model (some 8000) resolver) model none
    ≤ resolve resolver model none
runtime_limit_falls_example = runtime_limit_falls resolver model model (some 8000) none 9000 known

resolve-record_example : resolve (record_runtime_limit model (some 8000) resolver) model none ≤ 8000
resolve-record_example = resolve-record resolver model none 8000 named (omega arith)

-- A manager whose messages are texts: a system message begins with `s`, a tool message with `t`,
-- and each message counts as many tokens as characters.
abbrev begins : ℕ → Text → Bool
begins k [] = false
begins k (c ∷ s) = c == k

abbrev count : Text → List Text → ℕ
count _ [] = 0
count _ (x ∷ xs) = length x + count [] xs

abbrev manager : Manager
manager = record {
  Message = Text;
  is_system = begins b's';
  is_tool = begins b't';
  count_messages = count;
  summary_message = λ s. s;
  guarded = λ n. n;
  output_reserve_tokens = 0;
  recent_messages = 2;
  summary_max_tokens = 10;
  resolver = resolver;
}

abbrev conversation : List Text
conversation =
    codes "sys" ∷ codes "user" ∷ codes "call" ∷ codes "tool" ∷ codes "tea" ∷ codes "bye" ∷ []

truncate_messages-IsTail_example :
    IsTail manager [] 10 conversation (truncate_messages manager [] 10 conversation)
    ⊎ IsLastResort manager [] 10 conversation (truncate_messages manager [] 10 conversation)
truncate_messages-IsTail_example = truncate_messages-IsTail manager [] 10 conversation

abbrev exchange : List Text
exchange = codes "tool" ∷ codes "tea" ∷ []

begins_with_tool : tool_at manager exchange (recent_start manager exchange 0) ≡ true
unfolding tool_at recent_start walk_back
begins_with_tool = refl

recent_start-settled_example : recent_start manager exchange 0 ≡ 0
recent_start-settled_example = recent_start-settled manager exchange 0 begins_with_tool

abbrev summarizer : Summarizer manager
summarizer _ _ _ = some (codes "sum")

summarized : (compact_messages manager [] 20 (some summarizer) conversation).summary_used ≡ true
unfolding compact_messages with_summary truncated summarize split_system_message recent_start
    walk_back tool_at assemble strip lstrip is_space truncate_messages first_fit last_resort last
summarized = refl

compact_messages-fits_example :
    manager.count_messages []
      (compact_messages manager [] 20 (some summarizer) conversation).messages
    ≤ 20
compact_messages-fits_example =
    compact_messages-fits manager [] 20 (some summarizer) conversation summarized
