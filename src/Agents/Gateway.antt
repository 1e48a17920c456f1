-- ===== src/Agents/Gateway.antt =====
-- What the gateway does with an event of an agent: `handleAgentProtocolMessage` and
-- `assertEventAuthorized` of apps/api/src/agent-gateway/agent.gateway.ts, with the checks of a
-- principal in agent-authentication.service.ts. A project key is ASCII, so a character is a byte.
pub mod Messages
pub mod Laws
mod Tests
use Prim.Native.String.{len, slice}
use Prim.Native.Char.{code}
use text.Mathlib.Text.{starts_with}
use pair_dock.Prelude.{
  ℕ, String, Bool, true, false, not, ◌&&◌, ◌||◌, Option, none, some, List, [], ◌∷◌, ◌++◌, map, ◌==◌,
  if◌then◌else◌, truthy, has_text, is_some, all, any, find, includes, length, ltb, leb, eqb, Result,
  ok, err, guard, ◌>>=◌, ◌>>◌,
}
use pair_dock.Domain.{Project, Session}
use pair_dock.Agents.Registry.{
  ConnectedAgentSnapshot, Registry, PublishedProject, publishes, register, find_agent_id,
  find_snapshot_by_socket_id,
}
use pair_dock.Agents.Binding.{assert_connected}
use pair_dock.Agents.Delivery.{Network, is_credential_active}

pub record Principal : Type 0 where
  pub agent_id : String
  pub project_keys : List String
  pub owner_user_id : Option String
  pub project_key_prefix : Option String

-- `client.data.authenticatedAgent`: `null` for an agent of the tests.
pub data SocketIdentity : Type 0 where
  test_agent unidentified : SocketIdentity
  authenticated : Principal → SocketIdentity

-- The envelopes, by what the gateway reads of them. A payload is some `B`.
pub data Body (B : Type 0) : Type 0 where
  connected : ConnectedAgentSnapshot → Body B
  readiness : (project_key : String) → B → Body B
  error_report : (session_id : Option String) → B → Body B
  other_event : B → Body B

pub record AgentEvent (B : Type 0) : Type 0 where
  pub session_id : Option String
  pub body : Body B

pub data GatewayError : Type 0 where
  no_identity credential_revoked credential_required identity_differs unregistered : GatewayError
  not_authorized_for not_advertised session_without_project : (key : String) → GatewayError
  not_connected : GatewayError

abbrev codes : String → List ℕ
codes String.[] = []
codes (String.◌∷◌ c s) = code c ∷ codes s

-- [A-Za-z0-9._-]
abbrev is_key_code : ℕ → Bool
is_key_code c =
    (leb b'A' c && leb c b'Z')
    || (leb b'a' c && leb c b'z')
    || (leb b'0' c && leb c b'9')
    || eqb c b'.'
    || eqb c b'_'
    || eqb c b'-'

unfoldable pub is_key : String → Bool
is_key key =
    all is_key_code (codes key) && ltb 0 (length (codes key)) && leb (length (codes key)) 128

-- `ownerUserId === undefined || ownerUserId === principal.ownerUserId`.
abbrev pub owner_fits : Option String → String → Bool
owner_fits none owner = true
owner_fits (some asked) owner = asked == owner

abbrev pub in_namespace : Option String → String → Bool
in_namespace none key = false
in_namespace (some prefix) key =
    truthy prefix && starts_with key prefix && ltb (len prefix) (len key) && is_key key

abbrev pub authorized_by_owner : Option String → Principal → String → Option String → Bool
authorized_by_owner none p key asked = includes key p.project_keys
authorized_by_owner (some owner) p key asked =
    if truthy owner
    then in_namespace p.project_key_prefix key && owner_fits asked owner
    else includes key p.project_keys

unfoldable pub is_agent_authorized_for_project : Principal → String → Option String → Bool
is_agent_authorized_for_project p key asked = authorized_by_owner p.owner_user_id p key asked

abbrev pub resolve_session_id : {B : Type 0} → AgentEvent B → Option String
resolve_session_id e =
    if has_text e.session_id
    then e.session_id
    else elim e.body [ error_report id _ ↦ id | _ ↦ none ]

-- `assertProjectKeyAuthorized`.
abbrev pub assert_advertised : ConnectedAgentSnapshot → String → Result GatewayError (Unit {0})
assert_advertised snapshot key = guard (publishes key snapshot) (not_advertised key)

-- `find` of a project that the credential does not cover.
unfoldable pub assert_projects : Principal → List PublishedProject → Result GatewayError (Unit {0})
assert_projects p [] = ok tt
assert_projects p (project ∷ projects) =
    let rest = assert_projects p projects in
    if is_agent_authorized_for_project p project.key none
    then rest
    else err (not_authorized_for project.key)

-- What the gateway looks up; `fold` is that of Agents/Binding.
pub record Lookups : Type 0 where
  pub net : Network
  pub fold : String → String
  pub find_session : String → Option Session
  pub find_project : String → Option Project

module _ (L : Lookups) where
  -- `assertActive`.
  abbrev pub active_owner : Option String → String → Bool
  active_owner none agent_id = true
  active_owner (some owner) agent_id =
      if truthy owner then is_credential_active L.net agent_id owner else true

  abbrev pub assert_active : Principal → Result GatewayError (Unit {0})
  assert_active p = guard (active_owner p.owner_user_id p.agent_id) credential_revoked

  -- `assertTestIdentityUnclaimed`.
  abbrev pub assert_unclaimed : String → List String → Result GatewayError (Unit {0})
  assert_unclaimed agent_id keys =
      guard
        (not (
          any (λ id. is_some (L.net.find_credential id))
            (agent_id ∷ map (λ key. slice key 0 42) keys)))
        credential_required

  abbrev pub find_session_project : String → Option Project
  find_session_project id = elim (L.find_session id) [
    | none ↦ none
    | some session ↦ L.find_project session.project_id
  ]

  abbrev test_body : {B : Type 0} → Body B → Result GatewayError (Unit {0})
  test_body (connected payload) =
      assert_unclaimed payload.agent_id (map (λ project. project.key) payload.projects)
  test_body (readiness key _) = assert_unclaimed "" (key ∷ [])
  test_body _ = ok tt

  abbrev test_session : Option String → Result GatewayError (Unit {0})
  test_session none = ok tt
  test_session (some id) =
      if truthy id
      then elim (find_session_project id) [
        | none ↦ ok tt
        | some project ↦ assert_unclaimed "" (project.agent_project_key ∷ [])
      ]
      else ok tt

  -- The project of the session, for a registered agent.
  abbrev pub assert_project :
      Principal → ConnectedAgentSnapshot → Registry → Project → Result GatewayError (Unit {0})
  assert_project p snapshot r project =
      guard
        (is_agent_authorized_for_project p project.agent_project_key (some project.owner_user_id))
        (not_authorized_for project.agent_project_key)
      >> assert_advertised snapshot project.agent_project_key
      >> elim (assert_connected L.fold project r) [ ok _ ↦ ok tt | err _ ↦ err not_connected ]

  abbrev pub assert_session :
      Principal → ConnectedAgentSnapshot → Registry → Option String → Result GatewayError (Unit {0})
  assert_session p snapshot r none = ok tt
  assert_session p snapshot r (some id) =
      if truthy id
      then elim (find_session_project id) [
        | none ↦ err (session_without_project id)
        | some project ↦ assert_project p snapshot r project
      ]
      else ok tt

  abbrev pub assert_readiness :
      {B : Type 0} → Principal → ConnectedAgentSnapshot → Body B → Result GatewayError (Unit {0})
  assert_readiness p snapshot (readiness key _) =
      guard (is_agent_authorized_for_project p key none) (not_authorized_for key)
      >> assert_advertised snapshot key
  assert_readiness p snapshot _ = ok tt

  -- The registered agent of the socket.
  abbrev pub require_snapshot :
      Principal → Option ConnectedAgentSnapshot → Result GatewayError ConnectedAgentSnapshot
  require_snapshot p none = err unregistered
  require_snapshot p (some snapshot) =
      if snapshot.agent_id == p.agent_id then ok snapshot else err unregistered

  abbrev pub assert_registered :
      {B : Type 0} → Principal → String → Registry → AgentEvent B → Result GatewayError (Unit {0})
  assert_registered p socket r e = do
    snapshot ← require_snapshot p (find_snapshot_by_socket_id socket r)
    assert_readiness p snapshot e.body
    assert_session p snapshot r (resolve_session_id e)

  -- What follows `assertActive`.
  abbrev pub assert_event :
      {B : Type 0}
      → Principal
      → String
      → Registry
      → AgentEvent B
      → Body B
      → Result GatewayError (Unit {0})
  assert_event p socket r e (connected payload) =
      guard (payload.agent_id == p.agent_id) identity_differs >> assert_projects p payload.projects
  assert_event p socket r e _ = assert_registered p socket r e

  unfoldable pub assert_event_authorized :
      {B : Type 0}
      → SocketIdentity
      → String
      → Registry
      → AgentEvent B
      → Result GatewayError (Unit {0})
  assert_event_authorized test_agent socket r e =
      test_body e.body >> test_session (resolve_session_id e)
  assert_event_authorized unidentified socket r e = err no_identity
  assert_event_authorized (authenticated p) socket r e =
      assert_active p >> assert_event p socket r e e.body
