-- ===== src/Session/Runner/Ends.antt =====
-- A session ends: each turn with tool calls uses up the cap, each repair uses up an attempt.
use my_digital_brain.Base.{
  ◌⊎◌, refl, Bool-cases, Option-cases, List-cases, inl, inr, some, ◌++◌, ◌∷◌, ℕ, zero, suc, ◌+◌,
  ◌-◌, ◌<◌, ◌≡◌, ◌≢◌, true, false, List, [], arith, if◌then◌else◌, length, Text,
}
use my_digital_brain.Session.Types.{Message, Library, Event, RawCall}
use my_digital_brain.Session.Batch.{BatchResult, execute_batch}
use my_digital_brain.Session.Runner.{
  cap_reached, completion_request, after_batch, tool_turn, repair_turn, final_turn, turn, Provider,
  run_loop, start, run_turns,
}
use my_digital_brain.Session.Contracts.{
  Limit, default, unlimited, at, Request, Completion, Outcome, Loop, Turn, stop, again,
}

-- The number of calls at which the cap is reached.
abbrev pub bound : Limit → ℕ
bound default = 50
bound unlimited = 0
bound (at n) = n

pub Turn-cases :
    {l : Library} (t : Turn l) → ((o : Outcome l) × (t ≡ stop o)) ⊎ ((s : Loop l) × (t ≡ again s))
Turn-cases (stop o) = inl (o, refl)
Turn-cases (again s) = inr (s, refl)

module _ (l : Library) (request : Request l) where
  -- How many turns may still follow.
  abbrev measure : Loop l → ℕ
  measure s =
      (if s.tools_enabled then 1 + (bound request.max_tool_calls - s.executed) else 0)
      + (request.max_output_repairs - s.repair_attempts)

  not_capped :
      (limit : Limit) (n : ℕ) → limit ≢ unlimited → cap_reached l limit n ≡ false → n < bound limit
  unfolding cap_reached
  not_capped default n h e = ground arith
  not_capped unlimited n h e = absurd (h refl)
  not_capped (at k) n h e = ground arith

  batch_falls :
      (s s' : Loop l) (executed : ℕ) (b : BatchResult l)
      → request.max_tool_calls ≢ unlimited
      → s.tools_enabled ≡ true
      → s.executed < executed
      → after_batch l request s executed b ≡ again s'
      → measure s' < measure s
  unfolding after_batch
  batch_falls s s' executed b finite enabled more h =
      ground (arith, not_capped request.max_tool_calls executed finite)

  repair_falls :
      (s s' : Loop l) (error : Text)
      → repair_turn l request s error ≡ again s'
      → measure s' < measure s
  unfolding repair_turn
  repair_falls s s' error h = ground arith

  final_falls :
      (s s' : Loop l) (content : Text)
      → final_turn l request s content ≡ again s'
      → measure s' < measure s
  unfolding final_turn
  final_falls s s' content h = elim (Option-cases request.output_schema) [
    | inl plain ↦ absurd (ground arith)
    | inr (check, has_schema) ↦ elim (Option-cases (check content)) [
      | inl valid ↦ absurd (ground arith)
      | inr (error, invalid) ↦ repair_falls s s' error (ground arith)
    ]
  ]

  tool_falls :
      (s s' : Loop l) (call : RawCall) (calls : List RawCall)
      → request.max_tool_calls ≢ unlimited
      → s.tools_enabled ≡ true
      → tool_turn l request s (call ∷ calls) ≡ again s'
      → measure s' < measure s
  unfolding tool_turn
  tool_falls s s' call calls finite enabled h =
      let b = execute_batch l request.tools_mapping s.executed (call ∷ calls) s.messages in
      batch_falls s s' (s.executed + length (call ∷ calls)) b finite enabled (omega arith)
        (ground arith)

  turn_falls :
      (s s' : Loop l) (reply : Message)
      → request.max_tool_calls ≢ unlimited
      → (s.tools_enabled ≡ false → reply.tool_calls ≡ [])
      → turn l request s reply ≡ again s'
      → measure s' < measure s
  unfolding turn
  turn_falls s s' reply finite obeys h =
      let told : Loop l = record s { messages = s.messages ++ reply ∷ [] } in
      elim (List-cases reply.tool_calls) [
        | inl final ↦ final_falls told s' reply.content (ground arith)
        | inr (call, calls, e) ↦ elim (Bool-cases s.tools_enabled) [
          | inl enabled ↦ tool_falls told s' call calls finite enabled (ground arith)
          | inr disabled ↦ absurd (ground (arith, obeys disabled))
        ]
      ]

  module _ (provider : Provider l) (finite : request.max_tool_calls ≢ unlimited)
      (obeys : (n : ℕ) (c : Completion l)
        → c.tools_offered ≡ false
        → (provider n c).tool_calls ≡ []) where
    loop_ends :
        (fuel n : ℕ) (s : Loop l)
        → measure s < fuel
        → (o : Outcome l) × (run_loop l fuel provider request n s ≡ some o)
    unfolding run_loop completion_request
    loop_ends zero n s h = elim h [ ]
    loop_ends (suc fuel) n s h =
        let c = completion_request l s in
        elim (Turn-cases (turn l request s (provider n c))) [
          | inl (o, e) ↦ (o, rw (e, run_loop) refl)
          | inr (s', e) ↦
              let (o, ends) =
                loop_ends fuel (n + 1) s'
                  (omega (arith, turn_falls s s' (provider n c) finite (obeys n c) e)) in
              (o, rw (e, run_loop) ends)
        ]

    -- With a finite cap on tool calls, and a provider that makes no tool call when no tool is
    -- offered, the turns of a session end, from any messages, events and count of calls: as many
    -- turns as the cap, the repairs and two more are enough.
    pub run_turns_end :
        (session_id : Text) (messages : List Message) (events : List (Event l)) (executed : ℕ)
        → (o : Outcome l) × (run_turns l
              (bound request.max_tool_calls + request.max_output_repairs + 2)
              provider
              request
              session_id
              messages
              events
              executed
            ≡ some o)
    unfolding run_turns start
    run_turns_end session_id messages events executed = loop_ends _ 0 _ (ground arith)
