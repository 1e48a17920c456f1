-- ===== src/Agents/Delivery.antt =====
-- The delivery of commands: `emitToAgent` and `emitToAgentAndWait` of
-- apps/api/src/agent-gateway/agent.gateway.ts, with `assertActive` of
-- agent-authentication.service.ts, and agent-command-router.service.ts. The socket of an agent, and
-- the credentials that are stored, are functions.
pub mod Laws
use pair_dock.Prelude.{
  String, Bool, true, false, not, ◌&&◌, Option, none, some, List, [], ◌∷◌, ◌++◌, ◌==◌,
  if◌then◌else◌, truthy, Result, ok, err,
}
use pair_dock.Domain.{Project, Session}
use pair_dock.Agents.Registry.{Registry, find_socket_id, find_snapshot_by_socket_id, unregister}
use pair_dock.Agents.Binding.{BindingError, assert_connected, assert_ownership_if_connected}

-- The command envelopes, by what this code reads of them.
pub data Command : Type 0 where
  close_command : (session_id : String) → Command
  other_command : (kind session_id : String) → Command

abbrev pub is_close : Command → Bool
is_close (close_command _) = true
is_close (other_command _ _) = false

-- The answer of an agent; a reply that is no acknowledgement, or none in time, is `no_reply`.
pub data Reply : Type 0 where
  accepts : Reply
  refuses : (error : Option String) → Reply
  no_reply : Reply

pub record Credential : Type 0 where
  pub owner_user_id : String
  pub revoked : Bool

pub data RouteError : Type 0 where
  session_not_found project_not_found not_delivered credential_revoked : RouteError
  misbound : BindingError → RouteError
  agent_error : (message : String) → RouteError
  not_acknowledged : RouteError

-- The connected agents, and what has been sent to their sockets.
pub record Hub : Type 0 where
  pub registry : Registry
  pub sent : List (String × Command)

pub record Network : Type 0 where
  pub find_credential : String → Option Credential
  pub reply : String → Command → Reply

module _ (net : Network) where
  -- `assertActive`, for an agent with an owner.
  abbrev pub is_credential_active : String → String → Bool
  is_credential_active agent_id owner = elim (net.find_credential agent_id) [
    | none ↦ false
    | some credential ↦ not credential.revoked && credential.owner_user_id == owner
  ]

  -- `disconnectAgent`.
  abbrev pub disconnect_agent : String → Hub → Hub
  disconnect_agent agent_id hub = elim (find_socket_id agent_id hub.registry) [
    | none ↦ hub
    | some socket ↦
        if truthy socket then record hub { registry = unregister socket hub.registry } else hub
  ]

  -- `assertSocketAgentActive`: a revoked agent is disconnected.
  unfoldable pub assert_socket_agent_active : String → Hub → Hub × Result RouteError (Unit {0})
  assert_socket_agent_active socket hub = elim (find_snapshot_by_socket_id socket hub.registry) [
    | none ↦ (hub, ok tt)
    | some snapshot ↦ elim snapshot.owner_user_id [
      | none ↦ (hub, ok tt)
      | some owner ↦
          if truthy owner
          then (if is_credential_active snapshot.agent_id owner
              then (hub, ok tt)
              else (disconnect_agent snapshot.agent_id hub, err credential_revoked))
          else (hub, ok tt)
    ]
  ]

  -- The end of `emitToAgentAndWait`.
  abbrev pub acknowledged : Reply → Result RouteError Bool
  acknowledged accepts = ok true
  acknowledged (refuses none) = err not_acknowledged
  acknowledged (refuses (some message)) =
      if truthy message then err (agent_error message) else err not_acknowledged
  acknowledged no_reply = err not_acknowledged

  abbrev pub send :
      Bool → Command → String → Hub × Result RouteError (Unit {0}) → Hub × Result RouteError Bool
  send wait command socket (hub, err e) = (hub, err e)
  send wait command socket (hub, ok _) = (
    record hub { sent = hub.sent ++ (socket, command) ∷ [] },
    if wait then acknowledged (net.reply socket command) else ok true,
  )

  -- `emitToAgent` and, with `wait`, `emitToAgentAndWait`.
  unfoldable pub emit_to_agent : Bool → String → Command → Hub → Hub × Result RouteError Bool
  unfolding assert_socket_agent_active
  emit_to_agent wait key command hub = elim (find_socket_id key hub.registry) [
    | none ↦ (hub, ok false)
    | some socket ↦
        if truthy socket
        then send wait command socket (assert_socket_agent_active socket hub)
        else (hub, ok false)
  ]

  abbrev pub delivered : Hub × Result RouteError Bool → Hub × Result RouteError (Unit {0})
  delivered (hub, ok true) = (hub, ok tt)
  delivered (hub, ok false) = (hub, err not_delivered)
  delivered (hub, err e) = (hub, err e)

  module _ (fold : String → String) (find_session : String → Option Session)
      (find_project : String → Option Project) where
    -- A command to close only needs that no other developer's agent has the project.
    abbrev pub check_binding : Command → Project → Registry → Result BindingError (Unit {0})
    check_binding command p r =
        if is_close command then assert_ownership_if_connected p r else assert_connected fold p r

    abbrev pub route_to_project :
        Bool → Command → Project → Hub → Hub × Result RouteError (Unit {0})
    route_to_project wait command p hub = elim (check_binding command p hub.registry) [
      | err e ↦ (hub, err (misbound e))
      | ok _ ↦ delivered (emit_to_agent wait p.agent_project_key command hub)
    ]

    -- `routeToOwningAgent`.
    unfoldable pub route_to_owning_agent :
        Bool → String → Command → Hub → Hub × Result RouteError (Unit {0})
    unfolding emit_to_agent
    route_to_owning_agent wait session_id command hub = elim (find_session session_id) [
      | none ↦ (hub, err session_not_found)
      | some session ↦ elim (find_project session.project_id) [
        | none ↦ (hub, err project_not_found)
        | some project ↦ route_to_project wait command project hub
      ]
    ]
