-- ===== src/Agents/Capabilities/Tests.antt =====
-- An agent that offers one model, of which it has announced no efforts.
use pair_dock.Prelude.{none, some, [], ◌∷◌, ◌≡◌, ◌⊎◌, refl, ok, err}
use pair_dock.Prelude.Dict.{get, set}
use pair_dock.Agents.Registry.{
  AgentModel, PublishedProject, ConnectedAgentSnapshot, Registry, no_agents, register, check_other,
  check_projects, find_conflict, store, list_snapshots,
}
use pair_dock.Agents.Registry.Invariant.{IsConsistent}
use pair_dock.Agents.Registry.Register.{register-IsConsistent}
use pair_dock.Agents.Registry.Tests.{no_agents-IsConsistent}
use pair_dock.Agents.Capabilities.{
  SessionExecutionSelection, OfferedModel, medium, model_not_published, effort_not_supported,
  list_models_for_project, resolve_session_selection,
}
use pair_dock.Agents.Capabilities.Laws.{IsOffered, resolve_selection-IsOffered}

abbrev model : AgentModel
model = record {
  id = "gpt";
  label = "GPT";
  provider = "codex";
  reasoning_efforts = none;
  default_reasoning_effort = some "high";
}

abbrev app : PublishedProject
app = record {
  key = "app";
  name = "App";
  repo_full_name = "acme/app";
  path_alias = "app";
  default_branch = none;
  models = some ("gpt" ∷ []);
}

abbrev mac : ConnectedAgentSnapshot
mac = record {
  agent_id = "mac";
  owner_user_id = none;
  capabilities = [];
  models = model ∷ [];
  projects = app ∷ [];
}

abbrev agents : Registry
agents = record {
  agent_id_by_socket_id = ("k1", "mac") ∷ [];
  socket_id_by_agent_id = ("mac", "k1") ∷ [];
  snapshot_by_agent_id = ("mac", mac) ∷ [];
}

agents-IsConsistent : IsConsistent agents
unfolding register check_other check_projects find_conflict store get set
agents-IsConsistent =
    register-IsConsistent "k1" mac no_agents agents no_agents-IsConsistent refl refl refl

abbrev chosen : SessionExecutionSelection
chosen = record { model_id = "gpt"; reasoning_effort = "medium" }

abbrev offered : OfferedModel
offered = record {
  id = "gpt";
  label = "GPT";
  provider = "codex";
  reasoning_efforts = medium ∷ [];
  default_reasoning_effort = "medium";
}

selections :
    (list_models_for_project "app" agents ≡ offered ∷ [])
    × (resolve_session_selection "app" chosen agents ≡ ok chosen)
    × (resolve_session_selection "app" (record chosen { reasoning_effort = "high" }) agents
        ≡ err effort_not_supported)
    × (resolve_session_selection "app" (record chosen { model_id = "opus" }) agents
        ≡ err model_not_published)
    × (resolve_session_selection "web" chosen agents ≡ ok chosen)
unfolding list_models_for_project resolve_session_selection list_snapshots
selections = (refl, refl, refl, refl, refl)

resolve_selection-IsOffered_example :
    (chosen ≡ chosen)
    × ((list_models_for_project "app" agents ≡ []) ⊎ IsOffered "app" chosen agents)
resolve_selection-IsOffered_example =
    resolve_selection-IsOffered "app" agents agents-IsConsistent chosen chosen selections.1
