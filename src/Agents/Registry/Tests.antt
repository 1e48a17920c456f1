-- ===== src/Agents/Registry/Tests.antt =====
-- Two agents that connect and leave, and the registry's theorems about them.
use pair_dock.Prelude.{String, true, none, some, List, [], ◌∷◌, ◌≡◌, ◌⊎◌, refl, ok, err}
use pair_dock.Prelude.Dict.{get, set, delete}
use pair_dock.Agents.Registry.{
  PublishedProject, ConnectedAgentSnapshot, Registry, no_agents, already_connected, key_connected,
  publishes, check_other, check_projects, find_conflict, store, register, unregister, find_agent_id,
  find_socket_id,
}
use pair_dock.Agents.Registry.Invariant.{IsConsistent}
use pair_dock.Agents.Registry.Register.{register-IsConsistent}
use pair_dock.Agents.Registry.Unregister.{unregister-IsConsistent}
use pair_dock.Agents.Registry.Lookup.{Publishes, find_socket_id_sound}
use pair_dock.Agents.Registry.Accept.{IsFree, register_accepts}

abbrev project : String → PublishedProject
project key = record {
  key = key;
  name = key;
  repo_full_name = "acme/app";
  path_alias = "app";
  default_branch = none;
  models = none;
}

abbrev agent : String → List PublishedProject → ConnectedAgentSnapshot
agent id projects = record {
  agent_id = id;
  owner_user_id = some "dev";
  capabilities = [];
  models = [];
  projects = projects;
}

abbrev mac : ConnectedAgentSnapshot
mac = agent "mac" (project "app" ∷ [])

abbrev pub one_agent : Registry
one_agent = record {
  agent_id_by_socket_id = ("k1", "mac") ∷ [];
  socket_id_by_agent_id = ("mac", "k1") ∷ [];
  snapshot_by_agent_id = ("mac", mac) ∷ [];
}

calls : Unit {0}
unfolding register unregister check_other check_projects find_conflict store find_agent_id
    find_socket_id get set delete
calls = tt

register_tests :
    (register "k1" mac no_agents ≡ ok one_agent)
    × (register "k2" mac one_agent ≡ err (already_connected "mac"))
    × (register "k2" (agent "pc" (project "app" ∷ [])) one_agent ≡ err (key_connected "app" "mac"))
    × (unregister "k1" one_agent ≡ no_agents)
    × (find_socket_id "app" one_agent ≡ some "k1")
unfolding calls
register_tests = (refl, refl, refl, refl, refl)

pub no_agents-IsConsistent : IsConsistent no_agents
unfolding calls
no_agents-IsConsistent = record {
  agent_of_socket = λ s a h. cc;
  socket_of_agent = λ s a h. cc;
  named = λ a x h. cc;
  snapshot_connected = λ a x h. cc;
  agent_snapshot = λ s a h. cc;
  socket_truthy = λ s a h. cc;
  agent_truthy = λ s a h. cc;
  exclusive = λ key a b x y h k p q. cc;
  distinct = tt;
}

pub one_agent-IsConsistent : IsConsistent one_agent
one_agent-IsConsistent =
    register-IsConsistent "k1" mac no_agents one_agent no_agents-IsConsistent refl refl
      register_tests.0

register-IsConsistent_example : IsConsistent one_agent
register-IsConsistent_example =
    register-IsConsistent "k1" mac no_agents one_agent no_agents-IsConsistent refl refl
      register_tests.0

unregister-IsConsistent_example : IsConsistent (unregister "k1" one_agent)
unregister-IsConsistent_example = unregister-IsConsistent "k1" one_agent one_agent-IsConsistent

find_socket_id_sound_example :
    (a : String) × (get "k1" one_agent.agent_id_by_socket_id ≡ some a)
    × ((a ≡ "app") ⊎ Publishes one_agent "app" a)
find_socket_id_sound_example =
    find_socket_id_sound one_agent "app" "k1" one_agent-IsConsistent (register_tests.4)

mac-IsFree : IsFree "k1" mac no_agents
unfolding calls
mac-IsFree = record {
  one_socket = λ s h. cc;
  one_agent = λ a h. cc;
  own_keys = λ key a h p. let e = p.registered in cc;
}

register_accepts_example :
    (r' : Registry) × (register "k1" mac no_agents ≡ ok r')
    × (find_agent_id "k1" r' ≡ some "mac")
    × (find_socket_id "mac" r' ≡ some "k1")
    × ((key : String)
        → publishes key mac ≡ true
        → get key r'.socket_id_by_agent_id ≡ none
        → find_socket_id key r' ≡ some "k1")
register_accepts_example =
    register_accepts "k1" mac no_agents no_agents-IsConsistent refl refl mac-IsFree
