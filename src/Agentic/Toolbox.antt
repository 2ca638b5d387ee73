-- ===== src/Agentic/Toolbox.antt =====
-- `AgenticToolRegistry` of agentic/tools/registry.py: the tools of a state are looked up, and the
-- state's configuration is checked against them.
pub mod Policy
use my_digital_brain.Base.{
  none, some, List, [], ◌∷◌, map, if◌then◌else◌, elem, ℕ_discrete, Text, text_discrete, Table, get,
  put, empty, Result, ok, err,
}
use my_digital_brain.Agentic.Ids.{state_value, StateConfig}
use my_digital_brain.Agentic.Tools.{ToolDefinition, default_definitions}

-- The messages of `ValueError`.
pub data ToolboxError : Type 0 where
  invalid_names : List Text → ToolboxError
  not_registered : Text → ToolboxError
  allowed_and_forbidden : Text → Text → ToolboxError
  not_for_state : Text → Text → ToolboxError

-- `{definition.name: definition for definition in definitions}`
unfoldable pub by_name : List ToolDefinition → Table ToolDefinition → Table ToolDefinition
by_name [] table = table
by_name (d ∷ definitions) table = by_name definitions (put table d.name d)

-- The keys with a NUL character.
unfoldable pub invalid : List Text → List Text
invalid [] = []
invalid (name ∷ names) = if elem ℕ_discrete 0 name then name ∷ invalid names else invalid names

-- `__init__`
unfoldable pub tool_registry : List ToolDefinition → Result ToolboxError (Table ToolDefinition)
unfolding by_name invalid
tool_registry definitions = elim (invalid (map (λ e. e.0) (by_name definitions empty))) [
  | [] ↦ ok (by_name definitions empty)
  | name ∷ names ↦ err (invalid_names (name ∷ names))
]

-- `get`
unfoldable pub get_tool : Table ToolDefinition → Text → Result ToolboxError ToolDefinition
unfolding get
get_tool tools name = elim (get tools name) [ some d ↦ ok d | none ↦ err (not_registered name) ]

-- One round of the loop of `definitions_for_state`.
unfoldable pub permitted :
    Table ToolDefinition → StateConfig → Text → Result ToolboxError ToolDefinition
unfolding get_tool state_value
permitted tools config name =
    if elem text_discrete name config.forbidden_tools
    then err (allowed_and_forbidden name (state_value config.state_id))
    else elim (get_tool tools name) [
      | err error ↦ err error
      | ok d ↦
          if elem text_discrete (state_value config.state_id) d.allowed_states
          then ok d
          else err (not_for_state name (state_value config.state_id))
    ]

-- The loop of `definitions_for_state`.
unfoldable pub collect :
    Table ToolDefinition → StateConfig → List Text → Result ToolboxError (List ToolDefinition)
unfolding permitted
collect tools config [] = ok []
collect tools config (name ∷ names) = elim (permitted tools config name) [
  | err error ↦ err error
  | ok d ↦ elim (collect tools config names) [ err error ↦ err error | ok ds ↦ ok (d ∷ ds) ]
]

-- `definitions_for_state`
unfoldable pub definitions_for_state :
    Table ToolDefinition → StateConfig → Result ToolboxError (List ToolDefinition)
unfolding collect
definitions_for_state tools config = collect tools config config.allowed_tools

-- `validate_state_configs`
unfoldable pub validate_state_configs :
    Table ToolDefinition → List StateConfig → Result ToolboxError Unit
unfolding definitions_for_state
validate_state_configs tools [] = ok tt
validate_state_configs tools (config ∷ configs) = elim (definitions_for_state tools config) [
  | err error ↦ err error
  | ok ds ↦ validate_state_configs tools configs
]

-- `default_agentic_tool_registry`
unfoldable pub default_agentic_tool_registry : Result ToolboxError (Table ToolDefinition)
unfolding tool_registry default_definitions
default_agentic_tool_registry = tool_registry default_definitions
