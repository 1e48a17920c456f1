-- ===== src/Agents/Registry.antt =====
-- apps/api/src/agent-gateway/connected-agents.registry.ts, with the payload of `agent.connected`
-- from packages/shared-contracts/src/protocol/events.ts. Values are immutable here, so the copies
-- that the source makes of a snapshot are the snapshot.
pub mod Invariant
pub mod Register
pub mod Unregister
pub mod Lookup
pub mod Accept
pub mod Tests
use pair_dock.Prelude.{
  String, Bool, true, false, not, ◌&&◌, Option, none, some, List, [], ◌∷◌, ◌==◌, if◌then◌else◌,
  truthy, has_text, is_some, any, find, Result, ok, err, ◌>>=◌, ◌>>◌,
}
use pair_dock.Prelude.Dict.{Dict, get, set, delete, values}

pub record ReasoningEffort : Type 0 where
  pub id : String
  pub label : String
  pub description : Option String

pub record AgentModel : Type 0 where
  pub id : String
  pub label : String
  pub provider : String
  pub reasoning_efforts : Option (List ReasoningEffort)
  pub default_reasoning_effort : Option String

pub record PublishedProject : Type 0 where
  pub key : String
  pub name : String
  pub repo_full_name : String
  pub path_alias : String
  pub default_branch : Option String
  pub models : Option (List String)

pub record ConnectedAgentSnapshot : Type 0 where
  pub agent_id : String
  pub owner_user_id : Option String
  pub capabilities : List String
  pub models : List AgentModel
  pub projects : List PublishedProject

-- The three maps of `ConnectedAgentsRegistry`.
pub record Registry : Type 0 where
  pub agent_id_by_socket_id : Dict String
  pub socket_id_by_agent_id : Dict String
  pub snapshot_by_agent_id : Dict ConnectedAgentSnapshot

abbrev pub no_agents : Registry
no_agents = record {
  agent_id_by_socket_id = [];
  socket_id_by_agent_id = [];
  snapshot_by_agent_id = [];
}

pub data RegisterError : Type 0 where
  already_connected : (agent_id : String) → RegisterError
  socket_registered : (socket_id previous_agent_id : String) → RegisterError
  key_connected : (project_key agent_id : String) → RegisterError

-- `projects.some((project) => project.key === key)`.
abbrev pub publishes : String → ConnectedAgentSnapshot → Bool
publishes key snapshot = any (λ project. project.key == key) snapshot.projects

-- `if (previous && previous !== current) throw …`.
unfoldable pub check_other :
    Option String → String → (String → RegisterError) → Result RegisterError (Unit {0})
check_other none current refused = ok tt
check_other (some previous) current refused =
    if truthy previous && not (previous == current) then err (refused previous) else ok tt

-- `snapshot.ownerUserId ? { ownerUserId: snapshot.ownerUserId } : {}`.
abbrev pub keep_text : Option String → Option String
keep_text none = none
keep_text (some s) = if truthy s then some s else none

-- The snapshot that another agent has registered with a project of this key.
unfoldable pub find_conflict :
    String → String → Dict ConnectedAgentSnapshot → Option ConnectedAgentSnapshot
find_conflict agent_id key snapshots =
    find (λ s. not (s.agent_id == agent_id) && publishes key s) (values snapshots)

-- The loop over the announced projects.
unfoldable pub check_projects :
    String → List PublishedProject → Dict ConnectedAgentSnapshot → Result RegisterError (Unit {0})
unfolding find_conflict
check_projects agent_id [] snapshots = ok tt
check_projects agent_id (project ∷ projects) snapshots =
    let rest = check_projects agent_id projects snapshots in
    elim (find_conflict agent_id project.key snapshots) [
      | some conflicting ↦ err (key_connected project.key conflicting.agent_id)
      | none ↦ rest
    ]

-- The three writes of `register`.
unfoldable pub store : String → ConnectedAgentSnapshot → Registry → Registry
store socket_id snapshot r = record {
  agent_id_by_socket_id = set socket_id snapshot.agent_id r.agent_id_by_socket_id;
  socket_id_by_agent_id = set snapshot.agent_id socket_id r.socket_id_by_agent_id;
  snapshot_by_agent_id =
      set snapshot.agent_id (record snapshot { owner_user_id = keep_text snapshot.owner_user_id })
        r.snapshot_by_agent_id;
}

-- `register`, called with a snapshot.
unfoldable pub register : String → ConnectedAgentSnapshot → Registry → Result RegisterError Registry
register socket_id snapshot r = do
  check_other (get snapshot.agent_id r.socket_id_by_agent_id) socket_id
      (λ _. already_connected snapshot.agent_id)
  check_other (get socket_id r.agent_id_by_socket_id) snapshot.agent_id
      (λ previous. socket_registered socket_id previous)
  check_projects snapshot.agent_id snapshot.projects r.snapshot_by_agent_id
  ok (store socket_id snapshot r)

-- `unregister`.
unfoldable pub unregister : String → Registry → Registry
unregister socket_id r = elim (get socket_id r.agent_id_by_socket_id) [
  | none ↦ r
  | some agent_id ↦
      if truthy agent_id
      then record {
        agent_id_by_socket_id = delete socket_id r.agent_id_by_socket_id;
        socket_id_by_agent_id = delete agent_id r.socket_id_by_agent_id;
        snapshot_by_agent_id = delete agent_id r.snapshot_by_agent_id;
      }
      else r
]

unfoldable pub find_agent_id : String → Registry → Option String
find_agent_id socket_id r = get socket_id r.agent_id_by_socket_id

unfoldable pub find_snapshot : String → Registry → Option ConnectedAgentSnapshot
find_snapshot agent_id r = get agent_id r.snapshot_by_agent_id

unfoldable pub find_snapshot_by_socket_id : String → Registry → Option ConnectedAgentSnapshot
unfolding find_agent_id find_snapshot
find_snapshot_by_socket_id socket_id r = elim (find_agent_id socket_id r) [
  | none ↦ none
  | some agent_id ↦ if truthy agent_id then find_snapshot agent_id r else none
]

unfoldable pub list_snapshots : Registry → List ConnectedAgentSnapshot
list_snapshots r = values r.snapshot_by_agent_id

unfoldable pub find_socket_id_by_project_key : String → Registry → Option String
find_socket_id_by_project_key key r = elim (find (publishes key) (values r.snapshot_by_agent_id)) [
  | none ↦ none
  | some snapshot ↦ get snapshot.agent_id r.socket_id_by_agent_id
]

unfoldable pub find_socket_id : String → Registry → Option String
unfolding find_socket_id_by_project_key
find_socket_id id r = elim (get id r.socket_id_by_agent_id) [
  | some socket_id ↦ some socket_id
  | none ↦ find_socket_id_by_project_key id r
]
