-- ===== src/Session/Batch/Questions.antt =====
-- The events of a turn and the calls that wait after it; turns with too many clarification
-- questions.
use my_digital_brain.Base.{
  Option-cases, inl, inr, ◌∙◌, ℕ, ◌+◌, ◌<◌, ◌≡◌, refl, ap, false, List, [], ◌∷◌, ◌++◌, map, arith,
  Text, text_discrete, sym, Bool-cases,
}
use my_digital_brain.Session.Types.{Message, RawCall, Library, Event, ToolResult, is_pending}
use my_digital_brain.Session.Batch.{
  reject_batch, accept_batch, call_ids, Round, run_calls, pending_events, question_count,
  more_than_five, update_pending, overflow_result, execute_batch, PendingCall, Packet, BatchResult,
}
use my_digital_brain.Session.Packets.{packets, combined_packet, with_packet}
use my_digital_brain.Session.Tools.{ToolMapping, pending_tool_call, execute, upsert_tool_message}

module _ (l : Library) where
  -- The calls of the events.
  abbrev pub calls_of : List (Event l) → List (PendingCall l)
  calls_of = map (λ e. e.call)

  -- The calls of a turn.
  abbrev pub calls_made : List RawCall → List (PendingCall l)
  calls_made = map (pending_tool_call l)

  calls_of-append :
      (events : List (Event l)) (e : Event l)
      → calls_of (events ++ e ∷ []) ≡ calls_of events ++ e.call ∷ []
  calls_of-append [] e = refl
  calls_of-append (e' ∷ events) e = ap (λ cs. e'.call ∷ cs) (calls_of-append events e)

  append_cons :
      (xs ys : List (PendingCall l)) (x : PendingCall l) → (xs ++ x ∷ []) ++ ys ≡ xs ++ (x ∷ ys)
  append_cons [] ys x = refl
  append_cons (x' ∷ xs) ys x = ap (λ cs. x' ∷ cs) (append_cons xs ys x)

  append_empty : (xs : List (PendingCall l)) → xs ++ [] ≡ xs
  append_empty [] = refl
  append_empty (x ∷ xs) = ap (λ cs. x ∷ cs) (append_empty xs)

  calls_of-run_calls :
      (mapping : ToolMapping l) (n : ℕ) (raws : List RawCall) (s : Round l)
      → calls_of (run_calls l mapping n raws s).events ≡ calls_of s.events ++ calls_made raws
  unfolding run_calls
  calls_of-run_calls mapping n [] s = sym (append_empty (calls_of s.events))
  calls_of-run_calls mapping n (raw ∷ raws) s =
      let call = pending_tool_call l raw in
      let e : Event l = record { call = call; result = execute l mapping n call } in
      calls_of-run_calls mapping (n + 1) raws (record {
        events = s.events ++ e ∷ [];
        messages = upsert_tool_message l call.call_id e.result s.messages;
      })
      ∙ ap (λ cs. cs ++ calls_made raws) (calls_of-append s.events e)
      ∙ append_cons (calls_of s.events) (calls_made raws) call

  calls_of-update_pending :
      (f : ToolResult → ToolResult) (events : List (Event l))
      → calls_of (update_pending l f events) ≡ calls_of events
  unfolding update_pending
  calls_of-update_pending f [] = refl
  calls_of-update_pending f (e ∷ events) = ground (arith, calls_of-update_pending f events)

  not_pending_overflow : (ids : List Text) → is_pending (overflow_result l ids) ≡ false
  unfolding is_pending overflow_result text_discrete
  not_pending_overflow ids = refl

  pending-update :
      (f : ToolResult → ToolResult) (events : List (Event l))
      → ((r : ToolResult) → is_pending (f r) ≡ false)
      → pending_events l (update_pending l f events) ≡ []
  unfolding pending_events update_pending
  pending-update f [] settled = refl
  pending-update f (e ∷ events) settled =
      ground (arith, settled e.result, pending-update f events settled)

  -- A change of the results that keeps what is pending keeps the calls that wait.
  waiting-update :
      (f : ToolResult → ToolResult) (events : List (Event l))
      → ((r : ToolResult) → is_pending (f r) ≡ is_pending r)
      → calls_of (pending_events l (update_pending l f events)) ≡ calls_of (pending_events l events)
  unfolding pending_events update_pending
  waiting-update f [] keeps = refl
  waiting-update f (e ∷ events) keeps =
      ground (arith, keeps e.result, waiting-update f events keeps)

  with_packet-pending :
      (packet : Packet) (ids : List Text) (r : ToolResult)
      → is_pending (with_packet l packet ids r) ≡ is_pending r
  unfolding is_pending with_packet
  with_packet-pending packet ids r = refl

  -- The number of questions that wait after the loop of a batch.
  abbrev pub asked : ToolMapping l → ℕ → List RawCall → List Message → ℕ
  asked mapping n raws messages = question_count l (
      pending_events l
        (run_calls l mapping n raws (record { events = []; messages = messages })).events)

  -- The calls that wait are those of the pending events, and the interaction names them.
  pub record IsConsistent (b : BatchResult l) : Type 0 where
    waits : b.pending ≡ calls_of (pending_events l b.events)
    named : b.interaction.tool_call_ids ≡ map (λ (c : PendingCall l). c.call_id) b.pending

  reject-settled : (s : Round l) → pending_events l (reject_batch l s).events ≡ []
  unfolding reject_batch
  reject-settled s =
      let ids = call_ids l (pending_events l s.events) in
      pending-update (λ r. overflow_result l ids) s.events (λ r. not_pending_overflow ids)

  reject-nothing :
      (s : Round l)
      → ((reject_batch l s).pending ≡ []) × ((reject_batch l s).interaction.tool_call_ids ≡ [])
  unfolding reject_batch
  reject-nothing s = (refl, refl)

  reject-calls : (s : Round l) → calls_of (reject_batch l s).events ≡ calls_of s.events
  unfolding reject_batch
  reject-calls s = calls_of-update_pending _ s.events

  reject-IsConsistent : (s : Round l) → IsConsistent (reject_batch l s)
  reject-IsConsistent s = record {
    waits = ground (arith, reject-nothing s, reject-settled s);
    named = ground (arith, reject-nothing s);
  }

  ids-calls :
      (events : List (Event l))
      → call_ids l events ≡ map (λ (c : PendingCall l). c.call_id) (calls_of events)
  ids-calls [] = refl
  ids-calls (e ∷ events) = ap (λ ids. e.call.call_id ∷ ids) (ids-calls events)

  accept-calls : (n : ℕ) (s : Round l) → calls_of (accept_batch l n s).events ≡ calls_of s.events
  unfolding accept_batch
  accept-calls n s =
      elim (Option-cases (combined_packet l n (packets l (pending_events l s.events)))) [
        | inl e ↦ ground arith
        | inr (packet, e) ↦
            let ids = call_ids l (pending_events l s.events) in
            ground (arith, calls_of-update_pending (with_packet l packet ids) s.events)
      ]

  accept-IsConsistent : (n : ℕ) (s : Round l) → IsConsistent (accept_batch l n s)
  unfolding accept_batch
  accept-IsConsistent n s =
      let waiting = pending_events l s.events in
      elim (Option-cases (combined_packet l n (packets l waiting))) [
        | inl e ↦ record { waits = ground arith; named = ground (arith, ids-calls waiting) }
        | inr (packet, e) ↦ record {
          waits = ground (
            arith,
            waiting-update (with_packet l packet (call_ids l waiting)) s.events
                (with_packet-pending packet (call_ids l waiting)),
          );
          named = ground (arith, ids-calls waiting);
        }
      ]

  abbrev looped : ToolMapping l → ℕ → List RawCall → List Message → Round l
  looped mapping n raws messages =
      run_calls l mapping n raws (record { events = []; messages = messages })

  looped-calls :
      (mapping : ToolMapping l) (n : ℕ) (raws : List RawCall) (messages : List Message)
      → calls_of (looped mapping n raws messages).events ≡ calls_made raws
  looped-calls mapping n raws messages =
      calls_of-run_calls mapping n raws (record { events = []; messages = messages })

  execute_batch_over :
      (mapping : ToolMapping l) (n : ℕ) (raws : List RawCall) (messages : List Message)
      → 5 < asked mapping n raws messages
      → execute_batch l mapping n raws messages ≡ reject_batch l (looped mapping n raws messages)
  unfolding execute_batch more_than_five
  execute_batch_over mapping n raws messages over = ground arith

  -- A turn with more than five waiting questions waits for nothing: no call stays pending, none
  -- of the events is pending, and the calls of the events are the calls of the turn, in order.
  pub execute_batch-overflow :
      (mapping : ToolMapping l) (n : ℕ) (raws : List RawCall) (messages : List Message)
      → 5 < asked mapping n raws messages
      → ((execute_batch l mapping n raws messages).pending ≡ [])
        × (pending_events l (execute_batch l mapping n raws messages).events ≡ [])
        × (calls_of (execute_batch l mapping n raws messages).events ≡ calls_made raws)
  execute_batch-overflow mapping n raws messages over =
      let s = looped mapping n raws messages in
      rw (execute_batch_over mapping n raws messages over) (
        (reject-nothing s).0,
        reject-settled s,
        reject-calls s ∙ looped-calls mapping n raws messages,
      )

  -- After the batch, whether it is accepted or refused, the calls of the events are the calls of
  -- the turn, in order; the calls that wait are those of the pending events, in order; and the
  -- pending interaction has their ids.
  pub execute_batch-events :
      (mapping : ToolMapping l) (n : ℕ) (raws : List RawCall) (messages : List Message)
      → (calls_of (execute_batch l mapping n raws messages).events ≡ calls_made raws)
        × IsConsistent (execute_batch l mapping n raws messages)
  unfolding execute_batch
  execute_batch-events mapping n raws messages =
      let s = looped mapping n raws messages in
      let h = looped-calls mapping n raws messages in
      elim (Bool-cases (more_than_five (question_count l (pending_events l s.events)))) [
        | inl over ↦ rw over (reject-calls s ∙ h, reject-IsConsistent s)
        | inr fits ↦ rw fits (accept-calls n s ∙ h, accept-IsConsistent n s)
      ]
