-- ===== src/Session/Packets.antt =====
-- `_combined_clarification_packet` of ai/session/runner.py. The packet of a payload is typed here, so
-- that a payload whose packet `model_validate` refuses does not occur.
use my_digital_brain.Base.{
  ℕ, ◌+◌, Option, none, some, List, [], ◌∷◌, ◌++◌, if◌then◌else◌, elem, Text, codes, text_discrete,
}
use my_digital_brain.Session.Types.{Packet, ToolResult, Library, Event}

abbrev pub clarification_group : Text
clarification_group = codes "clarification_questions"

module _ (l : Library) where
  unfoldable pub packets : List (Event l) → List Packet
  packets [] = []
  packets (e ∷ events) = elim e.result.payload [
    | none ↦ packets events
    | some p ↦ elim p.clarification_packet [
      | none ↦ packets events
      | some packet ↦ packet ∷ packets events
    ]
  ]

  -- `list(dict.fromkeys(refs))`
  unfoldable pub distinct : List Text → List Text → List Text
  distinct seen [] = []
  distinct seen (ref ∷ refs) =
      if elem text_discrete ref seen then distinct seen refs else ref ∷ distinct (ref ∷ seen) refs

  unfoldable pub questions_of : List Packet → List Text
  questions_of [] = []
  questions_of (p ∷ ps) = p.questions ++ questions_of ps

  unfoldable pub targets_of : List Packet → List Text
  targets_of [] = []
  targets_of (p ∷ ps) = p.target_refs ++ targets_of ps

  -- The combination of a first packet and the others; `n` picks the new ids.
  unfoldable pub combine : ℕ → Packet → List Packet → Packet
  unfolding questions_of targets_of distinct
  combine n first others =
      let combined : Packet = record first {
        packet_id = l.uuid n;
        tool_call_id = elim others [
          | [] ↦ first.tool_call_id
          | _ ↦ codes "clarification-group-" ++ l.uuid (n + 1)
        ];
        tool_name = clarification_group;
        questions = questions_of (first ∷ others);
        target_refs = distinct [] (targets_of (first ∷ others));
        history_delta = [];
      } in
      record combined { history_delta = l.render combined ∷ [] }

  -- `_combined_clarification_packet`
  unfoldable pub combined_packet : ℕ → List Packet → Option Packet
  unfolding combine
  combined_packet n [] = none
  combined_packet n (first ∷ others) = some (combine n first others)

  -- The combined packet and the ids of the group, put into the payload of a result.
  unfoldable pub with_packet : Packet → List Text → ToolResult → ToolResult
  with_packet packet ids r = record r {
    payload = elim r.payload [
      | none ↦ some (record {
        interaction_group = none;
        clarification_packet = some packet;
        tool_call_ids = ids;
        rest = [];
      })
      | some p ↦ some (record p { clarification_packet = some packet; tool_call_ids = ids })
    ];
  }
