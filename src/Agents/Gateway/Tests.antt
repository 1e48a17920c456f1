-- ===== src/Agents/Gateway/Tests.antt =====
-- An enrolled agent, its own session, and one of another developer.
use pair_dock.Prelude.{
  String, true, false, Option, none, some, List, [], ◌∷◌, ◌++◌, ◌≡◌, ◌⊎◌, refl, ok, if◌then◌else◌,
  ◌==◌,
}
use pair_dock.Domain.{Project, Session}
use pair_dock.Domain.Samples.{shop, session_in}
use pair_dock.Domain.Status.{ready}
use pair_dock.Agents.Registry.{
  ConnectedAgentSnapshot, Registry, no_agents, register, find_agent_id, find_snapshot_by_socket_id,
  find_snapshot, check_other, check_projects, find_conflict, store, find_socket_id, list_snapshots,
}
use pair_dock.Agents.Binding.{
  assert_connected, assert_published_repository_matches, find_published_project, find_published,
  matches_project,
}
use pair_dock.Prelude.Dict.{get, set}
use pair_dock.Agents.Delivery.{Network, no_reply}
use pair_dock.Agents.Gateway.{
  Lookups, Principal, authenticated, AgentEvent, connected, other_event, is_key,
  is_agent_authorized_for_project, assert_event_authorized, assert_projects, resolve_session_id,
  active_owner,
}
use pair_dock.Agents.Gateway.Messages.{
  Gateway, Persistence, Answer, accepted, not_authorized, is_accepted, published_to, handle_message,
}
use pair_dock.Agents.Gateway.Laws.{IsAllowed, handle_message-IsAllowed}

abbrev net : Network
net = record {
  find_credential = λ id.
      if id == "agent-x" then some (record { owner_user_id = "ada"; revoked = false }) else none;
  reply = λ socket command. no_reply;
}

abbrev same : String → String
same text = text

abbrev project : String → String → Project
project owner key = record shop { id = key; owner_user_id = owner; agent_project_key = key }

abbrev session : String → String → Session
session id project_id = record (session_in ready) { id = id; project_id = project_id }

abbrev find_project : String → Option Project
find_project id =
    if id == "agent-x-shop"
    then some (project "ada" id)
    else (if id == "agent-y-bank" then some (project "bob" id) else none)

abbrev find_session : String → Option Session
find_session id =
    if id == "s1"
    then some (session id "agent-x-shop")
    else (if id == "s2" then some (session id "agent-y-bank") else none)

abbrev ada_agent : Principal
ada_agent = record {
  agent_id = "agent-x";
  project_keys = [];
  owner_user_id = some "ada";
  project_key_prefix = some "agent-x-";
}

abbrev snapshot : ConnectedAgentSnapshot
snapshot = record {
  agent_id = "agent-x";
  owner_user_id = none;
  capabilities = [];
  models = [];
  projects =
      record {
        key = "agent-x-shop";
        name = "Shop";
        repo_full_name = "ada/shop";
        path_alias = "shop";
        default_branch = none;
        models = none;
      }
      ∷ [];
}

abbrev lookups : Lookups
lookups = record {
  net = net;
  fold = same;
  find_session = find_session;
  find_project = find_project;
}

-- What is persisted is the session that it is persisted for.
abbrev persistence : Persistence String (List (Option String))
persistence = record {
  mark_connected = λ snapshot db. ok db;
  persist = λ agent session event registry db. ok (session ∷ db);
}

abbrev start : Gateway String (List (Option String))
start = record { registry = no_agents; db = []; published = [] }

abbrev message : Option String → AgentEvent String
message id = record { session_id = id; body = other_event "output" }

abbrev announcement : Option String → AgentEvent String
announcement id = record { session_id = id; body = connected snapshot }

abbrev live_registry : Registry
live_registry = record {
  agent_id_by_socket_id = ("w1", "agent-x") ∷ [];
  socket_id_by_agent_id = ("agent-x", "w1") ∷ [];
  snapshot_by_agent_id = ("agent-x", record snapshot { owner_user_id = some "ada" }) ∷ [];
}

abbrev live : Gateway String (List (Option String))
live = record start { registry = live_registry }

abbrev handle :
    AgentEvent String
    → Gateway String (List (Option String))
    → Gateway String (List (Option String)) × Answer
handle e g = handle_message lookups persistence (authenticated ada_agent) "w1" e g

calls : Unit {0}
unfolding handle_message assert_event_authorized assert_projects is_agent_authorized_for_project
    is_key register check_other check_projects find_conflict store find_agent_id find_snapshot
    find_snapshot_by_socket_id get set assert_connected find_socket_id
    assert_published_repository_matches find_published_project find_published list_snapshots
    matches_project
calls = tt

answers :
    ((handle (announcement none) start).0.registry ≡ live_registry)
    × ((handle (message (some "s1")) live).1 ≡ accepted)
    × ((handle (message (some "s1")) live).0.published ≡ ("s1", message (some "s1")) ∷ [])
    × (handle (message (some "s2")) live ≡ (live, not_authorized))
    × (handle (message (some "s1")) start ≡ (start, not_authorized))
unfolding calls
answers = (refl, refl, refl, refl, refl)

-- An announcement that names a session of another developer is published to it.
foreign_announcement :
    (handle (announcement (some "s2")) live).0.published ≡ ("s2", announcement (some "s2")) ∷ []
unfolding calls
foreign_announcement = refl

handle_message-IsAllowed_example :
    let after = handle (message (some "s1")) live in
    ((after ≡ (live, not_authorized))
      ⊎ ((active_owner lookups (some "ada") "agent-x" ≡ true)
          × IsAllowed lookups ada_agent "w1" live_registry
              (message (some "s1"))
              (other_event "output")))
    × (after.0.published
        ≡ []
          ++ (if is_accepted after.1
              then published_to (resolve_session_id (message (some "s1"))) (message (some "s1"))
              else []))
handle_message-IsAllowed_example =
    handle_message-IsAllowed lookups persistence ada_agent "w1" (message (some "s1")) live
