-- ===== src/Agentic/Mutations.antt =====
-- agentic/mutations.py: the mutations of nodes, one definition for each kind of node.
-- The classes of the written fields are the graph's and stay out.
use my_digital_brain.Base.{
  List, Option, Result, Text, [], codes, err, false, holds, if◌then◌else◌, is_space, leb, length,
  map, none, ok, reverse, some, strip, text_discrete, true, ◌==◌, ◌||◌, ◌∷◌, not,
}

-- `AgenticNodeMutationDefinition`
pub record MutationDefinition : Type 0 where
  pub label : Text
  pub argument_name : Text
  pub create_tool_name : Text
  pub patch_tool_name : Text

-- A row of `AGENTIC_NODE_MUTATION_DEFINITIONS`.
abbrev row : Text → Text → Text → Text → MutationDefinition
row label argument create patch = record {
  label = label;
  argument_name = argument;
  create_tool_name = create;
  patch_tool_name = patch;
}

abbrev pub mutation_definitions : List MutationDefinition
mutation_definitions =
    row (codes "Person") (codes "person") (codes "create_person_node") (codes "patch_person_node")
    ∷ row (codes "Event") (codes "event") (codes "create_event_node") (codes "patch_event_node")
    ∷ row (codes "Place") (codes "place") (codes "create_place_node") (codes "patch_place_node")
    ∷ row (codes "Organization") (codes "organization") (codes "create_organization_node")
        (codes "patch_organization_node")
    ∷ row (codes "Object") (codes "object") (codes "create_object_node") (codes "patch_object_node")
    ∷ row (codes "Animal") (codes "animal") (codes "create_animal_node") (codes "patch_animal_node")
    ∷ row (codes "SocialCircle") (codes "social_circle") (codes "create_social_circle_node")
        (codes "patch_social_circle_node")
    ∷ row (codes "Topic") (codes "topic") (codes "create_topic_node") (codes "patch_topic_node")
    ∷ []

-- `AGENTIC_NODE_CREATION_TOOL_NAMES`
abbrev pub node_creation_tool_names : List Text
node_creation_tool_names = map (λ (d : MutationDefinition). d.create_tool_name) mutation_definitions

-- `AGENTIC_NODE_PATCH_TOOL_NAMES`
abbrev pub node_patch_tool_names : List Text
node_patch_tool_names = map (λ (d : MutationDefinition). d.patch_tool_name) mutation_definitions

-- The loop of `agentic_node_mutation_definition`; the error holds the name of the tool.
unfoldable pub find_mutation : Text → List MutationDefinition → Result Text MutationDefinition
find_mutation tool [] = err tool
find_mutation tool (d ∷ definitions) =
    if holds (text_discrete tool d.create_tool_name) || holds (text_discrete tool d.patch_tool_name)
    then ok d
    else find_mutation tool definitions

-- `agentic_node_mutation_definition`
unfoldable pub agentic_node_mutation_definition : Text → Result Text MutationDefinition
unfolding find_mutation
agentic_node_mutation_definition tool = find_mutation tool mutation_definitions

-- A part that is read, unless it is empty; its characters are reversed.
abbrev finished : Text → List Text → List Text
finished [] parts = parts
finished (c ∷ part) parts = reverse (c ∷ part) ∷ parts

-- `text.replace("-", " ").split()`, from the part that is read so far
unfoldable pub name_parts_from : Text → Text → List Text
name_parts_from part [] = finished part []
name_parts_from part (c ∷ s) = elim (is_space c || (c == b'-')) [
  | true ↦ finished part (name_parts_from [] s)
  | false ↦ name_parts_from (c ∷ part) s
]

unfoldable pub name_parts : Text → List Text
name_parts name = name_parts_from [] (strip name)

-- `str(display_name or "")`
unfoldable pub given_name : Option Text → Text
given_name none = []
given_name (some s) = s

-- `identity_gap_for_node_creation`, of a label and the display name of the payload; `none` is no gap,
-- and the reason is given by the name that it quotes.
unfoldable pub identity_gap_for_node_creation : Text → Option Text → Option Text
identity_gap_for_node_creation label display_name =
    if not (holds (text_discrete label (codes "Person")))
    then none
    else if leb 2 (length (name_parts (given_name display_name)))
    then none
    else some (strip (given_name display_name))
