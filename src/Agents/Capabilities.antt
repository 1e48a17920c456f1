-- ===== src/Agents/Capabilities.antt =====
-- apps/api/src/agent-gateway/agent-execution-capabilities.service.ts.
pub mod Laws
mod Tests
use pair_dock.Prelude.{
  String, Bool, true, false, not, ◌||◌, Option, none, some, List, [], ◌∷◌, ◌==◌, if◌then◌else◌, any,
  find, keep, includes, or_else, map, Result, ok, err,
}
use pair_dock.Agents.Registry.{
  ReasoningEffort, AgentModel, PublishedProject, ConnectedAgentSnapshot, Registry, list_snapshots,
}

pub record SessionExecutionSelection : Type 0 where
  pub model_id : String
  pub reasoning_effort : String

-- A `DeveloperSetupAgentModel` as the service makes it, with its optional fields filled.
pub record OfferedModel : Type 0 where
  pub id : String
  pub label : String
  pub provider : String
  pub reasoning_efforts : List ReasoningEffort
  pub default_reasoning_effort : String

pub data SelectionError : Type 0 where
  model_not_published effort_not_supported : SelectionError

abbrev pub medium : ReasoningEffort
medium = record { id = "medium"; label = "Medium"; description = none }

-- `snapshot.projects.some(…)` and the agent's own name.
abbrev pub serves : String → ConnectedAgentSnapshot → Bool
serves key s = s.agent_id == key || any (λ p. p.key == key) s.projects

-- `project?.models?.length ? new Set(project.models) : null`.
abbrev pub non_empty {ℓ} : {A : Type ℓ} → Option (List A) → Option (List A)
non_empty (some (x ∷ xs)) = some (x ∷ xs)
non_empty _ = none

abbrev pub models_of : Option PublishedProject → Option (List String)
models_of none = none
models_of (some p) = p.models

abbrev pub is_allowed : Option (List String) → AgentModel → Bool
is_allowed none m = true
is_allowed (some ids) m = includes m.id ids

abbrev pub efforts_of : AgentModel → List ReasoningEffort
efforts_of m = or_else (non_empty m.reasoning_efforts) (medium ∷ [])

abbrev pub has_effort : Option String → List ReasoningEffort → Bool
has_effort none efforts = false
has_effort (some id) efforts = any (λ e. e.id == id) efforts

abbrev pub first_effort : List ReasoningEffort → String
first_effort [] = "medium"
first_effort (e ∷ _) = e.id

abbrev pub default_effort : List ReasoningEffort → Option String → String
default_effort efforts chosen =
    if has_effort chosen efforts
    then or_else chosen (first_effort efforts)
    else first_effort efforts

abbrev pub offer : AgentModel → OfferedModel
offer m = record {
  id = m.id;
  label = m.label;
  provider = m.provider;
  reasoning_efforts = efforts_of m;
  default_reasoning_effort = default_effort (efforts_of m) m.default_reasoning_effort;
}

abbrev pub offered_by : String → ConnectedAgentSnapshot → List OfferedModel
offered_by key s =
    let allowed = non_empty (models_of (find (λ p. p.key == key) s.projects)) in
    map offer (keep (is_allowed allowed) s.models)

unfoldable pub list_models_for_project : String → Registry → List OfferedModel
unfolding list_snapshots
list_models_for_project key r = elim (find (serves key) (list_snapshots r)) [
  | none ↦ []
  | some snapshot ↦ offered_by key snapshot
]

abbrev pub is_model : String → OfferedModel → Bool
is_model id m = m.id == id

abbrev pub select_from :
    List OfferedModel → SessionExecutionSelection → Result SelectionError SessionExecutionSelection
select_from [] selection = ok selection
select_from (m ∷ models) selection = elim (find (is_model selection.model_id) (m ∷ models)) [
  | none ↦ err model_not_published
  | some model ↦
      if any (λ e. e.id == selection.reasoning_effort) model.reasoning_efforts
      then ok selection
      else err effort_not_supported
]

unfoldable pub resolve_session_selection :
    String → SessionExecutionSelection → Registry → Result SelectionError SessionExecutionSelection
unfolding list_models_for_project
resolve_session_selection key selection r = select_from (list_models_for_project key r) selection
