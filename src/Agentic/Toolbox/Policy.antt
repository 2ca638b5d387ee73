-- ===== src/Agentic/Toolbox/Policy.antt =====
-- What the registry's check guarantees of a state's tools.
use mathlib.Core.Path.{subst}
use my_digital_brain.Base.{
  Result, true, false, ◌≡◌, refl, List, [], ◌∷◌, some, inl, inr, arith, elem, Text, text_discrete,
  Table, get, ok, Result-cases, Option-cases,
}
use my_digital_brain.Agentic.Ids.{state_value, StateConfig}
use my_digital_brain.Agentic.Tools.{ToolDefinition}
use my_digital_brain.Agentic.Toolbox.{
  permitted, collect, get_tool, definitions_for_state, ToolboxError,
}

-- The state may use the tool, and `d` is its definition.
pub record IsGranted (tools : Table ToolDefinition) (config : StateConfig) (name : Text)
    (d : ToolDefinition) : Type 0 where
  known : get tools name ≡ some d
  not_forbidden : elem text_discrete name config.forbidden_tools ≡ false
  for_state : elem text_discrete (state_value config.state_id) d.allowed_states ≡ true

-- Each name has the definition at its place.
abbrev pub AllGranted :
    Table ToolDefinition → StateConfig → List Text → List ToolDefinition → Type 0
AllGranted tools config [] [] = Unit
AllGranted tools config [] (d ∷ ds) = ⊥
AllGranted tools config (name ∷ names) [] = ⊥
AllGranted tools config (name ∷ names) (d ∷ ds) =
    IsGranted tools config name d × AllGranted tools config names ds

permitted-IsGranted :
    (tools : Table ToolDefinition) (config : StateConfig) (name : Text) (d : ToolDefinition)
    → permitted tools config name ≡ ok d
    → IsGranted tools config name d
unfolding permitted get_tool
permitted-IsGranted tools config name d h = elim (Option-cases (get tools name)) [
  | inl e ↦ record { known = ground arith; not_forbidden = ground arith; for_state = ground arith }
  | inr (d', e) ↦ record {
    known = ground arith;
    not_forbidden = ground arith;
    for_state = ground arith;
  }
]

same_list :
    (ds : List ToolDefinition) (d : ToolDefinition) (rest : List ToolDefinition)
    → Path (Result ToolboxError (List ToolDefinition)) (ok (d ∷ rest)) (ok ds)
    → d ∷ rest ≡ ds
same_list ds d rest h = ground arith

collect-AllGranted :
    (tools : Table ToolDefinition) (config : StateConfig) (names : List Text)
    (ds : List ToolDefinition)
    → collect tools config names ≡ ok ds
    → AllGranted tools config names ds
unfolding collect
collect-AllGranted tools config [] [] h = tt
collect-AllGranted tools config [] (d ∷ ds) h = absurd (ground arith)
collect-AllGranted tools config (name ∷ names) ds h =
    elim (Result-cases (permitted tools config name)) [
      | inr (error, e) ↦ absurd (ground arith)
      | inl (d, e) ↦ elim (Result-cases (collect tools config names)) [
        | inr (error, e') ↦ absurd (ground arith)
        | inl (rest, e') ↦
            subst (AllGranted tools config (name ∷ names)) (same_list ds d rest (ground arith)) (
              permitted-IsGranted tools config name d e,
              collect-AllGranted tools config names rest e',
            )
      ]
    ]

-- The tools of a state are its allowed tools, in their order, each with its registered definition;
-- none is forbidden to the state, and each is registered for it.
pub definitions_for_state-AllGranted :
    (tools : Table ToolDefinition) (config : StateConfig) (ds : List ToolDefinition)
    → definitions_for_state tools config ≡ ok ds
    → AllGranted tools config config.allowed_tools ds
unfolding definitions_for_state
definitions_for_state-AllGranted tools config = collect-AllGranted tools config config.allowed_tools

granted-permitted :
    (tools : Table ToolDefinition) (config : StateConfig) (name : Text) (d : ToolDefinition)
    → IsGranted tools config name d
    → permitted tools config name ≡ ok d
unfolding permitted get_tool
granted-permitted tools config name d g = ground (arith, g.known, g.not_forbidden, g.for_state)

granted-collect :
    (tools : Table ToolDefinition) (config : StateConfig) (names : List Text)
    (ds : List ToolDefinition)
    → AllGranted tools config names ds
    → collect tools config names ≡ ok ds
unfolding collect
granted-collect tools config [] [] g = refl
granted-collect tools config [] (d ∷ ds) g = absurd g
granted-collect tools config (name ∷ names) [] g = absurd g
granted-collect tools config (name ∷ names) (d ∷ ds) (g, gs) =
    ground
      (arith, granted-permitted tools config name d g, granted-collect tools config names ds gs)

-- A configuration whose allowed tools are all granted gets exactly those tools.
pub granted-definitions_for_state :
    (tools : Table ToolDefinition) (config : StateConfig) (ds : List ToolDefinition)
    → AllGranted tools config config.allowed_tools ds
    → definitions_for_state tools config ≡ ok ds
unfolding definitions_for_state
granted-definitions_for_state tools config = granted-collect tools config config.allowed_tools
