-- ===== src/Client/Router.antt =====
-- ai/router.py: `StaticModelRouter`. `lower` is that of ASCII texts.
use my_digital_brain.Base.{
  Bool, List, Option, Table, Text, [], arith, codes, elem, get, holds, if◌then◌else◌, none, some,
  strip, text_discrete, true, ◌||◌, ◌∷◌, ◌≡◌, not,
}
use my_digital_brain.Context.Limits.{lower}

-- The settings that the router reads.
pub record Settings : Type 0 where
  pub is_azure : Bool
  pub chat_model_default : Text
  pub chat_model_smart : Option Text
  pub chat_model_reasoning : Option Text
  pub openai_embed_model : Text
  pub openai_transcription_model : Text
  pub azure_openai_embed_deployment : Option Text
  pub azure_openai_transcription_deployment : Option Text

-- `ModelRoute`; the purpose is its only option.
pub record ModelRoute : Type 0 where
  pub task : Text
  pub provider : Text
  pub model : Option Text
  pub deployment : Option Text
  pub purpose : Option Text

-- `StaticModelRouter`
pub record Router : Type 0 where
  pub settings : Settings
  pub provider : Option Text
  pub task_overrides : Table ModelRoute

abbrev pub smart_model_tasks : List Text
smart_model_tasks =
    codes "conversation_entry"
    ∷ codes "graph_update"
    ∷ codes "ingestion_perception_extraction"
    ∷ codes "ingestion_relationship_context_extraction"
    ∷ codes "memory_question_answer"
    ∷ codes "memory_query"
    ∷ codes "memory_log_extraction"
    ∷ codes "planning_checkpoint"
    ∷ []

abbrev pub reasoning_model_tasks : List Text
reasoning_model_tasks = codes "contradiction_review" ∷ codes "reasoning_checkpoint" ∷ []

abbrev azure : Text
azure = codes "azure_openai"

unfoldable pub is_task : Text → Text → Bool
is_task task name = holds (text_discrete task name)

-- `s or t`, for a setting that may be missing or empty
unfoldable pub setting_or : Option Text → Text → Text
setting_or none t = t
setting_or (some []) t = t
setting_or (some (c ∷ s)) t = c ∷ s

-- `_normalize_task`
unfoldable pub normalize_task : Text → Text
normalize_task task = elim (lower (strip task)) [ [] ↦ codes "default_chat" | c ∷ s ↦ c ∷ s ]

-- `_embedding_model`, and `_transcription_model`
unfoldable pub deployed_model : Text → Option Text → Text → Text
deployed_model provider deployment model =
    if is_task provider azure then setting_or deployment model else model

-- `_deployment_for_task`
unfoldable pub deployment_for_task : Settings → Text → Text → Option Text
deployment_for_task s task provider =
    if not (is_task provider azure)
    then none
    else if is_task task (codes "embedding")
    then s.azure_openai_embed_deployment
    else if is_task task (codes "speech_to_text")
    then s.azure_openai_transcription_deployment
    else none

-- The model of `_default_route`; the tasks that take the default model need no case of their own.
unfoldable pub model_for_task : Settings → Text → Text → Text
model_for_task s task provider =
    if elem text_discrete task reasoning_model_tasks
    then setting_or s.chat_model_reasoning s.chat_model_default
    else if elem text_discrete task smart_model_tasks
    then setting_or s.chat_model_smart s.chat_model_default
    else if is_task task (codes "embedding")
    then deployed_model provider s.azure_openai_embed_deployment s.openai_embed_model
    else if is_task task (codes "speech_to_text")
    then deployed_model provider s.azure_openai_transcription_deployment
        s.openai_transcription_model
    else s.chat_model_default

-- `_default_route`
unfoldable pub default_route : Settings → Text → Text → Option Text → ModelRoute
default_route s task provider purpose = record {
  task = task;
  provider = provider;
  model = some (model_for_task s task provider);
  deployment = deployment_for_task s task provider;
  purpose = purpose;
}

-- `route`, for the purpose of the context, if there is one
unfoldable pub route : Router → Text → Option Text → ModelRoute
route r task purpose = elim (get r.task_overrides (normalize_task task)) [
  | some chosen ↦ chosen
  | none ↦
      default_route r.settings (normalize_task task)
        (setting_or r.provider (if r.settings.is_azure then azure else codes "openai")) purpose
]

-- Outside Azure a route that is not overridden names no deployment, and no task but embedding and
-- speech recognition has one there.
pub route-deployment :
    (s : Settings) (task provider name : Text) (purpose : Option Text)
    → (default_route s task provider purpose).deployment ≡ some name
    → (is_task provider azure ≡ true)
      × (is_task task (codes "embedding") || is_task task (codes "speech_to_text") ≡ true)
unfolding default_route deployment_for_task
route-deployment s task provider name purpose h = ground arith
