-- ===== src/Context/Compaction.antt =====
-- ai/context.py: `GenAIContextManager`, which shortens the messages of a call to its budget.
pub mod Budget
use my_digital_brain.Base.{
  ℕ, zero, suc, ◌+◌, ◌-◌, max, Bool, true, false, not, ◌&&◌, ◌||◌, Option, none, some, List, [],
  ◌∷◌, ltb, leb, ◌==◌, if◌then◌else◌, length, take, drop, Text, strip,
}
use my_digital_brain.Context.Limits.{Resolver, resolve}

-- Messages, the token counter and the guard ratio of the manager. `guarded limit` is
-- `int(limit * guard_ratio)`; `summary_message` puts the header before a summary.
pub record Manager : Type 1 where
  pub Message : Type 0
  pub is_system : Message → Bool
  pub is_tool : Message → Bool
  pub count_messages : Text → List Message → ℕ
  pub summary_message : Text → Message
  pub guarded : ℕ → ℕ
  pub output_reserve_tokens : ℕ
  pub recent_messages : ℕ
  pub summary_max_tokens : ℕ
  pub resolver : Resolver

-- `messages[i]`
abbrev pub get_elem? {ℓ} : {A : Type ℓ} → List A → ℕ → Option A
get_elem? [] i = none
get_elem? (x ∷ xs) zero = some x
get_elem? (x ∷ xs) (suc i) = get_elem? xs i

module _ (m : Manager) where
  open m use {
    Message, is_system, is_tool, count_messages, summary_message, guarded, output_reserve_tokens,
    recent_messages, summary_max_tokens, resolver,
  }

  -- `_split_system_message`
  unfoldable pub split_system_message : List Message → Option Message × ℕ
  split_system_message [] = (none, 0)
  split_system_message (x ∷ xs) = if is_system x then (some x, 1) else (none, 0)

  -- Is `messages[i]` a tool message?
  unfoldable pub tool_at : List Message → ℕ → Bool
  tool_at messages i = elim (get_elem? messages i) [ none ↦ false | some x ↦ is_tool x ]

  -- The loop of `_recent_start`: `start` goes down to a message that is no tool result.
  unfoldable pub walk_back : List Message → ℕ → ℕ → ℕ
  unfolding tool_at
  walk_back messages first zero = zero
  walk_back messages first (suc start) =
      let back = walk_back messages first start in
      if ltb first (suc start) && tool_at messages (suc start) then back else suc start

  -- `_recent_start`
  unfoldable pub recent_start : List Message → ℕ → ℕ
  unfolding walk_back
  recent_start messages first =
      walk_back messages first (max first (length messages - recent_messages))

  -- `_assemble`
  unfoldable pub assemble : Option Message → List Message → List Message
  assemble none messages = messages
  assemble (some s) messages = s ∷ messages

  -- The loops of `truncate_messages` on `messages[start:]`. After the first candidate every step
  -- skips the tool messages that it meets.
  unfoldable pub first_fit : Text → ℕ → Option Message → Bool → List Message → Option (List Message)
  unfolding assemble
  first_fit model budget system skipping [] = none
  first_fit model budget system skipping (x ∷ rest) =
      let later = first_fit model budget system true rest in
      if skipping && is_tool x
      then later
      else if leb (count_messages model (assemble system (x ∷ rest))) budget
      then some (assemble system (x ∷ rest))
      else later

  -- `messages[-1]`
  unfoldable pub last : List Message → List Message
  last [] = []
  last (x ∷ []) = x ∷ []
  last (x ∷ y ∷ rest) = last (y ∷ rest)

  -- What is left where nothing fits.
  unfoldable pub last_resort : Option Message → List Message → List Message
  unfolding last
  last_resort none messages = last messages
  last_resort (some s) messages = s ∷ []

  -- `truncate_messages`
  unfoldable pub truncate_messages : Text → ℕ → List Message → List Message
  unfolding first_fit last_resort split_system_message recent_start
  truncate_messages model budget [] = []
  truncate_messages model budget (x ∷ xs) =
      let (system, first) = split_system_message (x ∷ xs) in
      elim (first_fit model budget system false (drop (recent_start (x ∷ xs) first) (x ∷ xs))) [
        | some candidate ↦ candidate
        | none ↦ last_resort system (x ∷ xs)
      ]

  pub record Compacted : Type 0 where
    pub messages : List Message
    pub summary_used : Bool
    pub fallback_truncated : Bool

  -- The summarizer; `none` is an exception.
  abbrev pub Summarizer : Type 0
  Summarizer = List Message → Text → ℕ → Option Text

  -- The summary, stripped, of the older messages; empty where there is none.
  unfoldable pub summarize : Option Summarizer → List Message → Text → Text
  summarize none older model = []
  summarize (some summarizer) [] model = []
  summarize (some summarizer) (x ∷ older) model =
      elim (summarizer (x ∷ older) model summary_max_tokens) [
        | none ↦ []
        | some summary ↦ strip summary
      ]

  unfoldable pub truncated : Text → ℕ → List Message → Compacted
  truncated model budget messages = record {
    messages = truncate_messages model budget messages;
    summary_used = false;
    fallback_truncated = true;
  }

  -- The branch of `compact_messages` for a summary that is not empty.
  unfoldable pub with_summary : Text → ℕ → List Message → List Message → Compacted
  unfolding truncated
  with_summary model budget candidate messages =
      if leb (count_messages model candidate) budget
      then record { messages = candidate; summary_used = true; fallback_truncated = false }
      else let shorter = truncate_messages model budget candidate in
        if leb (count_messages model shorter) budget
        then record { messages = shorter; summary_used = true; fallback_truncated = true }
        else truncated model budget messages

  -- `compact_messages`
  unfoldable pub compact_messages : Text → ℕ → Option Summarizer → List Message → Compacted
  unfolding with_summary summarize recent_start split_system_message assemble
  compact_messages model budget summarizer [] = record {
    messages = [];
    summary_used = false;
    fallback_truncated = false;
  }
  compact_messages model budget summarizer (x ∷ xs) =
      let (system, first) = split_system_message (x ∷ xs) in
      let start = recent_start (x ∷ xs) first in
      elim (summarize summarizer (drop first (take start (x ∷ xs))) model) [
        | [] ↦ truncated model budget (x ∷ xs)
        | c ∷ s ↦
            with_summary model budget
              (assemble system (summary_message (c ∷ s) ∷ drop start (x ∷ xs))) (x ∷ xs)
      ]

  -- The parameters of a call: `output_limit` is the first of `max_completion_tokens` and
  -- `max_tokens` that is a number, `fixed_tokens` the count of the tools and the formats.
  pub record Call : Type 0 where
    pub model : Text
    pub messages : List Message
    pub output_limit : Option ℕ
    pub fixed_tokens : ℕ

  -- `ContextCompactionResult`, without the flag that the messages changed
  pub record Report : Type 0 where
    pub input_tokens : ℕ
    pub budget_tokens : ℕ
    pub context_limit_tokens : ℕ
    pub summary_used : Bool
    pub fallback_truncated : Bool

  -- `_resolve_output_reserve`
  unfoldable pub output_reserve : Call → ℕ
  output_reserve c = elim c.output_limit [ none ↦ output_reserve_tokens | some n ↦ n ]

  unfoldable pub context_limit : Option Text → Call → ℕ
  context_limit tier c = resolve resolver (some c.model) tier

  -- `max(1, int(context_limit * guard_ratio))`
  unfoldable pub guarded_limit : Option Text → Call → ℕ
  unfolding context_limit
  guarded_limit tier c = max 1 (guarded (context_limit tier c))

  unfoldable pub total_budget : Option Text → Call → ℕ
  unfolding guarded_limit output_reserve
  total_budget tier c = max 1 (guarded_limit tier c - output_reserve c)

  unfoldable pub message_budget : Option Text → Call → ℕ
  unfolding guarded_limit output_reserve
  message_budget tier c = max 1 (guarded_limit tier c - output_reserve c - c.fixed_tokens)

  unfoldable pub input_tokens : Call → ℕ
  input_tokens c = count_messages c.model c.messages + c.fixed_tokens

  unfoldable pub report : Option Text → Call → Bool → Bool → Report
  unfolding input_tokens total_budget context_limit
  report tier c summary_used fallback_truncated = record {
    input_tokens = input_tokens c;
    budget_tokens = total_budget tier c;
    context_limit_tokens = context_limit tier c;
    summary_used = summary_used;
    fallback_truncated = fallback_truncated;
  }

  -- `ensure_budget` of a call with a model and messages
  unfoldable pub compact_call : Option Text → Option Summarizer → Bool → Call → Call × Report
  unfolding report message_budget
  compact_call tier summarizer force c =
      if not force && leb (input_tokens c) (total_budget tier c)
      then (c, report tier c false false)
      else let k = compact_messages c.model (message_budget tier c) summarizer c.messages in
        (record c { messages = k.messages }, report tier c k.summary_used k.fallback_truncated)

  -- `ensure_budget`
  unfoldable pub ensure_budget : Option Text → Option Summarizer → Bool → Call → Call × Report
  ensure_budget tier summarizer force c =
      if (length c.model == 0) || (length c.messages == 0)
      then (
        c,
        record {
          input_tokens = 0;
          budget_tokens = 0;
          context_limit_tokens = context_limit tier c;
          summary_used = false;
          fallback_truncated = false;
        },
      )
      else compact_call tier summarizer force c
