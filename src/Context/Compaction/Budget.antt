-- ===== src/Context/Compaction/Budget.antt =====
-- What the shortened messages are: the longest tail of the conversation that fits its budget, or,
-- where none fits, the last resort.
use my_digital_brain.Base.{
  ℕ, zero, suc, ◌-◌, ◌≤◌, ◌≡◌, refl, Bool, true, false, ◌&&◌, ◌⊎◌, inl, inr, Option, some, List, [],
  ◌∷◌, arith, leb, max, length, take, drop, Text, Option-cases, Bool-cases, List-cases, ◌<◌, none,
}
use my_digital_brain.Context.Compaction.{
  Manager, split_system_message, tool_at, walk_back, recent_start, assemble, first_fit, last_resort,
  truncate_messages, Summarizer, summarize, truncated, with_summary, compact_messages, last,
}

module _ (m : Manager) where
  walk_back-ge :
      (messages : List m.Message) (first start : ℕ)
      → first ≤ start
      → first ≤ walk_back m messages first start
  unfolding walk_back
  walk_back-ge messages first zero h = h
  walk_back-ge messages first (suc start) h = ground (arith, walk_back-ge messages first start)

  recent_start-ge : (messages : List m.Message) (first : ℕ) → first ≤ recent_start m messages first
  unfolding recent_start
  recent_start-ge messages first =
      walk_back-ge messages first (max first (length messages - m.recent_messages)) (omega arith)

  walk_back-settled :
      (messages : List m.Message) (first start : ℕ)
      → tool_at m messages (walk_back m messages first start) ≡ true
      → walk_back m messages first start ≤ first
  unfolding walk_back
  walk_back-settled messages first zero h = omega arith
  walk_back-settled messages first (suc start) h =
      ground (arith, walk_back-settled messages first start)

  -- The recent messages do not begin in the middle of a tool exchange: where they begin with a
  -- tool result, they begin at the first message that may be among them.
  pub recent_start-settled :
      (messages : List m.Message) (first : ℕ)
      → tool_at m messages (recent_start m messages first) ≡ true
      → recent_start m messages first ≡ first
  unfolding recent_start
  recent_start-settled messages first h = omega (
    arith,
    recent_start-ge messages first,
    walk_back-settled messages first (max first (length messages - m.recent_messages)) h,
  )

  abbrev pub head_is_tool : List m.Message → Bool
  head_is_tool [] = false
  head_is_tool (x ∷ xs) = m.is_tool x

  module _ (model : Text) (budget : ℕ) (system : Option m.Message) where
    -- The tail after `k` messages is a candidate: it is not empty, and it does not begin with a tool
    -- result, unless nothing was dropped and `skipping` is off.
    abbrev IsLater : Bool → List m.Message → ℕ → Type 0
    IsLater skipping messages k =
        (k < length messages)
        × ((head_is_tool (drop k messages) ≡ false) ⊎ ((k ≡ 0) × (skipping ≡ false)))

    -- Together with the system message it exceeds the budget.
    abbrev IsOver : List m.Message → ℕ → Type 0
    IsOver messages k = budget < m.count_messages model (assemble m system (drop k messages))

    tail-IsLater :
        (skipping : Bool) (x : m.Message) (rest : List m.Message) (k : ℕ)
        → IsLater skipping (x ∷ rest) (suc k)
        → IsLater true rest k
    tail-IsLater skipping x rest k (room, inl settled) = (omega arith, inl settled)
    tail-IsLater skipping x rest k (room, inr (start, off)) = absurd (omega arith)

    cons-IsLater :
        (skipping : Bool) (x : m.Message) (rest : List m.Message) (k : ℕ)
        → IsLater true rest k
        → IsLater skipping (x ∷ rest) (suc k)
    cons-IsLater skipping x rest k (room, inl settled) = (omega arith, inl settled)
    cons-IsLater skipping x rest k (room, inr (start, off)) = absurd (ground arith)

    skip_not_first :
        (skipping : Bool) (x : m.Message) (rest : List m.Message)
        → skipping && m.is_tool x ≡ true
        → ¬ IsLater skipping (x ∷ rest) 0
    skip_not_first skipping x rest skip (room, inl settled) = ground arith
    skip_not_first skipping x rest skip (room, inr (start, off)) = ground arith

    -- Where nothing is found, every candidate exceeds the budget.
    first_fit-none :
        (skipping : Bool) (messages : List m.Message)
        → first_fit m model budget system skipping messages ≡ none
        → (k : ℕ) → IsLater skipping messages k
        → IsOver messages k
    unfolding first_fit
    first_fit-none skipping [] h k (room, _) = absurd (omega arith)
    first_fit-none skipping (x ∷ rest) h zero later = elim (Bool-cases (skipping && m.is_tool x)) [
      | inl skip ↦ absurd (skip_not_first skipping x rest skip later)
      | inr look ↦ ground arith
    ]
    first_fit-none skipping (x ∷ rest) h (suc k) later =
        elim (Bool-cases (skipping && m.is_tool x)) [
          | inl skip ↦
              first_fit-none true rest (ground arith) k (tail-IsLater skipping x rest k later)
          | inr look ↦
              first_fit-none true rest (ground arith) k (tail-IsLater skipping x rest k later)
        ]

    -- The first candidate that fits: the candidates before it exceed the budget.
    record IsFirst (skipping : Bool) (messages kept : List m.Message) : Type 0 where
      at : ℕ
      tail : kept ≡ assemble m system (drop at messages)
      fits : m.count_messages model kept ≤ budget
      later : IsLater skipping messages at
      longest : (j : ℕ) → j < at → IsLater skipping messages j → IsOver messages j

    IsFirst-next :
        (skipping : Bool) (x : m.Message) (rest kept : List m.Message)
        → (IsLater skipping (x ∷ rest) 0 → IsOver (x ∷ rest) 0)
        → IsFirst true rest kept
        → IsFirst skipping (x ∷ rest) kept
    IsFirst-next skipping x rest kept over h = record {
      at = suc h.at;
      tail = h.tail;
      fits = h.fits;
      later = cons-IsLater skipping x rest h.at h.later;
      longest = λ j before later.
          elim j
              as (λ (i : ℕ). i < suc h.at → IsLater skipping (x ∷ rest) i → IsOver (x ∷ rest) i) [
                | zero ↦ λ b l. over l
                | suc i ↦ λ b l. h.longest i (omega arith) (tail-IsLater skipping x rest i l)
              ]
            before later;
    }

    first_fit-IsFirst :
        (skipping : Bool) (messages kept : List m.Message)
        → first_fit m model budget system skipping messages ≡ some kept
        → IsFirst skipping messages kept
    unfolding first_fit
    first_fit-IsFirst skipping [] kept h = absurd (ground arith)
    first_fit-IsFirst skipping (x ∷ rest) kept h = elim (Bool-cases (skipping && m.is_tool x)) [
      | inl skip ↦
          IsFirst-next skipping x rest kept (λ l. absurd (skip_not_first skipping x rest skip l))
            (first_fit-IsFirst true rest kept (ground arith))
      | inr look ↦
          elim (Bool-cases (leb (m.count_messages model (assemble m system (x ∷ rest))) budget)) [
            | inr over ↦
                IsFirst-next skipping x rest kept (λ l. ground arith)
                  (first_fit-IsFirst true rest kept (ground arith))
            | inl fits ↦ record {
              at = 0;
              tail = ground arith;
              fits = ground arith;
              later = (
                omega arith,
                elim (Bool-cases skipping) [
                  | inl on ↦ inl (ground arith)
                  | inr off ↦ inr (refl, off)
                ],
              );
              longest = λ j before later. absurd (omega arith);
            }
          ]
    ]

  abbrev pub system_of : List m.Message → Option m.Message
  system_of messages = (split_system_message m messages).0

  -- The messages from the recent start on.
  abbrev pub recent_of : List m.Message → List m.Message
  recent_of messages = drop (recent_start m messages (split_system_message m messages).1) messages

  -- The tail after `k` of the recent messages may be kept: it is not empty, and it does not begin
  -- with a tool result, unless it is all of them.
  abbrev pub IsAllowed : List m.Message → ℕ → Type 0
  IsAllowed messages k =
      (k < length (recent_of messages))
      × ((head_is_tool (drop k (recent_of messages)) ≡ false) ⊎ (k ≡ 0))

  -- The system message before such a tail.
  abbrev pub candidate : List m.Message → ℕ → List m.Message
  candidate messages k = assemble m (system_of messages) (drop k (recent_of messages))

  -- The kept messages are the longest candidate that fits.
  pub record IsTail (model : Text) (budget : ℕ) (messages kept : List m.Message) : Type 0 where
    dropped : ℕ
    tail : kept ≡ candidate messages dropped
    fits : m.count_messages model kept ≤ budget
    allowed : IsAllowed messages dropped
    longest :
        (j : ℕ)
        → j < dropped
        → IsAllowed messages j
        → budget < m.count_messages model (candidate messages j)

  -- No candidate fits, and the system message alone is kept, or, where there is none, the last
  -- message.
  pub record IsLastResort (model : Text) (budget : ℕ) (messages kept : List m.Message)
      : Type 0 where
    last_one : kept ≡ last_resort m (system_of messages) messages
    none_fits :
        (j : ℕ) → IsAllowed messages j → budget < m.count_messages model (candidate messages j)

  allowed-IsLater :
      (model : Text) (budget : ℕ) (system : Option m.Message) (messages : List m.Message) (k : ℕ)
      → IsAllowed messages k
      → IsLater model budget system false (recent_of messages) k
  allowed-IsLater model budget system messages k (room, inl settled) = (room, inl settled)
  allowed-IsLater model budget system messages k (room, inr whole) = (room, inr (whole, refl))

  later-IsAllowed :
      (model : Text) (budget : ℕ) (system : Option m.Message) (messages : List m.Message) (k : ℕ)
      → IsLater model budget system false (recent_of messages) k
      → IsAllowed messages k
  later-IsAllowed model budget system messages k (room, inl settled) = (room, inl settled)
  later-IsAllowed model budget system messages k (room, inr (whole, off)) = (room, inr whole)

  drop_empty : (k : ℕ) → drop {A = m.Message} k [] ≡ []
  drop_empty zero = refl
  drop_empty (suc k) = refl

  -- What remains of a conversation either is the longest candidate that fits the budget, where a
  -- candidate is the system message before a tail of the recent messages that is not empty and
  -- begins with a tool result only if it is all of them; or no candidate fits, and it is the system
  -- message alone, or, where there is none, the last message.
  pub truncate_messages-IsTail :
      (model : Text) (budget : ℕ) (messages : List m.Message)
      → IsTail model budget messages (truncate_messages m model budget messages)
        ⊎ IsLastResort model budget messages (truncate_messages m model budget messages)
  unfolding truncate_messages split_system_message last_resort last
  truncate_messages-IsTail model budget [] = inr (record {
    last_one = refl;
    none_fits = λ j (room, _). absurd (ground (arith, drop_empty (recent_start m [] 0)));
  })
  truncate_messages-IsTail model budget (x ∷ xs) =
      let system = system_of (x ∷ xs) in
      let recent = recent_of (x ∷ xs) in
      elim (Option-cases (first_fit m model budget system false recent)) [
        | inl e ↦ inr (record {
          last_one = rw (e, truncate_messages) refl;
          none_fits = λ j allowed.
              first_fit-none model budget system false recent e j
                (allowed-IsLater model budget system (x ∷ xs) j allowed);
        })
        | inr (kept, e) ↦
            let h = first_fit-IsFirst model budget system false recent kept e in
            inl (record {
              dropped = h.at;
              tail = rw (e, truncate_messages) h.tail;
              fits = rw (e, truncate_messages) h.fits;
              allowed = later-IsAllowed model budget system (x ∷ xs) h.at h.later;
              longest = λ j before allowed.
                  h.longest j before (allowed-IsLater model budget system (x ∷ xs) j allowed);
            })
      ]

  with_summary-fits :
      (model : Text) (budget : ℕ) (candidate messages : List m.Message)
      → (with_summary m model budget candidate messages).summary_used ≡ true
      → m.count_messages model (with_summary m model budget candidate messages).messages ≤ budget
  unfolding with_summary truncated
  with_summary-fits model budget candidate messages used =
      elim (Bool-cases (leb (m.count_messages model candidate) budget)) [
        | inl fits ↦ ground arith
        | inr over ↦ ground arith
      ]

  -- Messages that carry a summary fit the budget.
  pub compact_messages-fits :
      (model : Text) (budget : ℕ) (summarizer : Option (Summarizer m)) (messages : List m.Message)
      → (compact_messages m model budget summarizer messages).summary_used ≡ true
      → m.count_messages model (compact_messages m model budget summarizer messages).messages
        ≤ budget
  unfolding compact_messages truncated
  compact_messages-fits model budget summarizer [] used = absurd (ground arith)
  compact_messages-fits model budget summarizer (x ∷ xs) used =
      let first = (split_system_message m (x ∷ xs)).1 in
      let start = recent_start m (x ∷ xs) first in
      elim (List-cases (summarize m summarizer (drop first (take start (x ∷ xs))) model)) [
        | inl e ↦ absurd (ground arith)
        | inr (c, s, e) ↦
            rw (e, compact_messages) (with_summary-fits model budget _ _ (ground arith))
      ]
