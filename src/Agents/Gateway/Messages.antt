-- ===== src/Agents/Gateway/Messages.antt =====
-- `handleAgentProtocolMessage` of apps/api/src/agent-gateway/agent.gateway.ts.
use pair_dock.Prelude.{
  String, Bool, true, false, Option, none, some, List, [], ◌∷◌, ◌++◌, if◌then◌else◌, truthy, Result,
  ok, err,
}
use pair_dock.Agents.Registry.{ConnectedAgentSnapshot, Registry, register, find_agent_id}
use pair_dock.Agents.Gateway.{
  Lookups, SocketIdentity, authenticated, Body, connected, AgentEvent, GatewayError,
  resolve_session_id, assert_event_authorized,
}

pub data Answer : Type 0 where
  accepted not_authorized : Answer
  not_persisted : (message : String) → Answer

-- What the gateway changes; `published` is what the sessions' pages were sent.
pub record Gateway (B Db : Type 0) : Type 0 where
  pub registry : Registry
  pub db : Db
  pub published : List (String × AgentEvent B)

-- `agentRegistrationsRepository.markConnected`, and `persistEvent`, which says nothing of the
-- registry. Each is one transaction.
pub record Persistence (B Db : Type 0) : Type 0 where
  pub mark_connected : ConnectedAgentSnapshot → Db → Result String Db
  pub persist : Option String → Option String → AgentEvent B → Registry → Db → Result String Db

abbrev pub is_accepted : Answer → Bool
is_accepted accepted = true
is_accepted _ = false

abbrev pub published_to : {B : Type 0} → Option String → AgentEvent B → List (String × AgentEvent B)
published_to none e = []
published_to (some id) e = if truthy id then (id, e) ∷ [] else []

abbrev pub owner_of : SocketIdentity → Option String
owner_of (authenticated p) = p.owner_user_id
owner_of _ = none

abbrev pub resolve_agent_id : {B : Type 0} → String → Registry → Body B → Option String
resolve_agent_id socket r (connected payload) = some payload.agent_id
resolve_agent_id socket r _ = find_agent_id socket r

module _ {B Db : Type 0} (L : Lookups) (persistence : Persistence B Db) where
  abbrev marked : ConnectedAgentSnapshot → Registry → Gateway B Db → Gateway B Db × Bool
  marked payload r g = elim (persistence.mark_connected payload g.db) [
    | ok db ↦ (record g { registry = r; db = db }, true)
    | err _ ↦ (record g { registry = r }, false)
  ]

  -- The registration of an agent that connects, and whether nothing was thrown.
  abbrev pub register_body : SocketIdentity → String → Body B → Gateway B Db → Gateway B Db × Bool
  register_body identity socket (connected payload) g =
      elim (register socket (record payload { owner_user_id = owner_of identity }) g.registry) [
        | err _ ↦ (g, false)
        | ok r ↦ marked payload r g
      ]
  register_body identity socket _ g = (g, true)

  abbrev pub persist_event : String → AgentEvent B → Gateway B Db × Bool → Gateway B Db × Answer
  persist_event socket e (g, false) = (g, not_authorized)
  persist_event socket e (g, true) =
      elim (persistence.persist (resolve_agent_id socket g.registry e.body) (resolve_session_id e) e
        g.registry g.db) [
          | err message ↦ (g, not_persisted message)
          | ok db ↦ (
            record g { db = db; published = g.published ++ published_to (resolve_session_id e) e },
            accepted,
          )
        ]

  abbrev pub handle_authorized :
      SocketIdentity
      → String
      → AgentEvent B
      → Result GatewayError (Unit {0})
      → Gateway B Db
      → Gateway B Db × Answer
  handle_authorized identity socket e (err _) g = (g, not_authorized)
  handle_authorized identity socket e (ok _) g =
      persist_event socket e (register_body identity socket e.body g)

  -- `handleAgentProtocolMessage`, for an event of the schema.
  unfoldable pub handle_message :
      SocketIdentity → String → AgentEvent B → Gateway B Db → Gateway B Db × Answer
  unfolding assert_event_authorized
  handle_message identity socket e g =
      handle_authorized identity socket e (assert_event_authorized L identity socket g.registry e) g
