-- ===== src/Agents/Binding/Tests.antt =====
-- A connected agent and a project that is bound to it.
use pair_dock.Prelude.{String, true, none, ◌≡◌, ◌↔◌, refl, ok, err}
use pair_dock.Prelude.Dict.{get}
use pair_dock.Domain.{Project}
use pair_dock.Agents.Registry.{list_snapshots, find_socket_id}
use pair_dock.Agents.Registry.Tests.{one_agent, one_agent-IsConsistent}
use pair_dock.Agents.Binding.{
  find_published, find_published_project, matches_project, is_connected, agent_offline,
  assert_published_repository_matches, assert_connected,
}
use pair_dock.Agents.Binding.Laws.{IsBound, assert_connected_iff}

abbrev shop : String → Project
shop key = record {
  id = "p1";
  owner_user_id = "dev";
  source_control_connection_id = "c1";
  name = "Shop";
  description = none;
  repo_full_name = "acme/app";
  default_branch = "main";
  default_model_id = "gpt";
  default_reasoning_effort = "medium";
  pm_can_start_sessions = true;
  agent_project_key = key;
  created_at = 0;
}

abbrev fold : String → String
fold s = s

assert_connected_tests :
    (assert_connected fold (shop "app") one_agent ≡ ok tt)
    × (assert_connected fold (shop "web") one_agent ≡ err (agent_offline "web"))
unfolding find_published find_published_project matches_project is_connected
    assert_published_repository_matches assert_connected list_snapshots find_socket_id get
assert_connected_tests = (refl, refl)

assert_connected_iff_example :
    ((assert_connected fold (shop "app") one_agent ≡ ok tt)
      ↔ (is_connected fold (shop "app") one_agent ≡ true))
    × (assert_connected fold (shop "app") one_agent ≡ ok tt → IsBound fold (shop "app") one_agent)
assert_connected_iff_example =
    assert_connected_iff fold (shop "app") one_agent one_agent-IsConsistent
