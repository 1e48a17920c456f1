-- ===== src/Session/Close/Tests.antt =====
-- A session whose agent is connected, and agents that accept and refuse to clean up.
use pair_dock.Prelude.{
  String, true, false, Option, none, some, [], ◌∷◌, ◌==◌, ◌≡◌, refl, if◌then◌else◌, ok, err,
}
use pair_dock.Prelude.Dict.{get}
use pair_dock.Domain.{Project}
use pair_dock.Domain.Status.{ready, closed}
use pair_dock.Session.Machine.{close_session}
use pair_dock.Session.Events.Memory.{in_memory, session, tables}
use pair_dock.Agents.Registry.{
  list_snapshots, find_socket_id, find_agent_id, find_snapshot, find_snapshot_by_socket_id,
}
use pair_dock.Agents.Registry.Tests.{one_agent}
use pair_dock.Agents.Binding.{find_published, find_published_project, assert_ownership_if_connected}
use pair_dock.Agents.Delivery.{
  close_command, Reply, accepts, no_reply, not_acknowledged, Hub, Network,
  assert_socket_agent_active, emit_to_agent, route_to_owning_agent,
}
use pair_dock.Session.Close.{request_local_cleanup, close}
use pair_dock.Session.Close.Laws.{Outcome, close-Outcome}

abbrev shop : Project
shop = record {
  id = "p1";
  owner_user_id = "dev";
  source_control_connection_id = "c1";
  name = "Shop";
  description = none;
  repo_full_name = "acme/app";
  default_branch = "main";
  default_model_id = "gpt";
  default_reasoning_effort = "medium";
  pm_can_start_sessions = true;
  agent_project_key = "app";
  created_at = 0;
}

abbrev find_project : String → Option Project
find_project id = if id == "p1" then some shop else none

abbrev network : Reply → Network
network reply = record {
  find_credential = λ agent. some (record { owner_user_id = "dev"; revoked = false });
  reply = λ socket command. reply;
}

abbrev hub : Hub
hub = record { registry = one_agent; sent = [] }

abbrev fold : String → String
fold s = s

closes :
    ((close in_memory (network accepts) fold find_project 9 "s1" (tables ready) hub).0.sent
      ≡ ("k1", close_command "s1") ∷ [])
    × ((close in_memory (network accepts) fold find_project 9 "s1" (tables ready) hub).2
        ≡ ok (some (record (session closed) { closed_at = some 9 })))
    × ((close in_memory (network no_reply) fold find_project 9 "s1" (tables ready) hub).2
        ≡ err not_acknowledged)
unfolding close request_local_cleanup route_to_owning_agent emit_to_agent close_session
    assert_socket_agent_active find_socket_id find_snapshot_by_socket_id find_agent_id find_snapshot
    get assert_ownership_if_connected find_published_project find_published list_snapshots
closes = (refl, refl, refl)

close-Outcome_example :
    Outcome in_memory
      (network accepts)
      fold
      find_project
      9
      "s1"
      (tables ready)
      hub
      (session ready)
      refl
      refl
      refl
      (close in_memory (network accepts) fold find_project 9 "s1" (tables ready) hub)
close-Outcome_example =
    close-Outcome in_memory (network accepts) fold find_project 9 "s1" (tables ready) hub
      (session ready) refl refl refl
