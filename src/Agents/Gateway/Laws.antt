-- ===== src/Agents/Gateway/Laws.antt =====
-- What an event of an authenticated agent that the gateway acts upon has shown.
use pair_dock.Prelude.{
  String, Bool, true, false, none, some, List, [], ◌∷◌, ◌++◌, All, ◌≡◌, ◌⊎◌, refl, sym, inl, inr,
  truthy, if◌then◌else◌, Result, ok, err, Bool-cases, Option-cases, arith,
}
use text.Mathlib.TextEquality.{eq_iff}
use mathlib.Core.List.{append-nil}
use pair_dock.Domain.{Project, Session}
use pair_dock.Agents.Registry.{
  ConnectedAgentSnapshot, Registry, PublishedProject, publishes, find_snapshot_by_socket_id,
}
use pair_dock.Agents.Binding.{assert_connected}
use pair_dock.Agents.Gateway.{
  Lookups, Principal, SocketIdentity, authenticated, connected, readiness, error_report,
  other_event, Body, AgentEvent, GatewayError, resolve_session_id, is_agent_authorized_for_project,
  assert_projects, assert_event_authorized, active_owner, assert_session, assert_project,
  assert_registered, assert_event,
}
use pair_dock.Agents.Gateway.Messages.{
  Gateway, Persistence, not_authorized, is_accepted, published_to, register_body, persist_event,
  handle_authorized, handle_message,
}

module _ (L : Lookups) where
  -- The socket is that of the registered agent, whose credential covers the project of the session
  -- and its owner; the agent has announced the project, and is connected for it.
  pub record IsOwn (p : Principal) (socket : String) (r : Registry) (id : String) : Type 0 where
    pub session : Session
    pub project : Project
    pub snapshot : ConnectedAgentSnapshot
    pub found : L.find_session id ≡ some session
    pub of_session : L.find_project session.project_id ≡ some project
    pub registered : find_snapshot_by_socket_id socket r ≡ some snapshot
    pub same_agent : snapshot.agent_id ≡ p.agent_id
    pub covered :
        is_agent_authorized_for_project p project.agent_project_key (some project.owner_user_id)
        ≡ true
    pub announced : publishes project.agent_project_key snapshot ≡ true
    pub bound : assert_connected L.fold project r ≡ ok tt

  abbrev pub Covers : Principal → PublishedProject → Type 0
  Covers p project = is_agent_authorized_for_project p project.key none ≡ true

  -- An announcement is that of the agent itself, with projects that its credential covers.
  abbrev pub IsAllowed :
      {B : Type 0} → Principal → String → Registry → AgentEvent B → Body B → Type 0
  IsAllowed p socket r e (connected payload) =
      (payload.agent_id ≡ p.agent_id) × All (Covers p) payload.projects
  IsAllowed p socket r e _ =
      (id : String) → resolve_session_id e ≡ some id → truthy id ≡ true → IsOwn p socket r id

  assert_projects-Covers :
      (p : Principal) (projects : List PublishedProject)
      → assert_projects p projects ≡ ok tt
      → All (Covers p) projects
  unfolding assert_projects
  assert_projects-Covers p [] h = tt
  assert_projects-Covers p (project ∷ projects) h =
      elim (Bool-cases (is_agent_authorized_for_project p project.key none)) [
        | inl covered ↦ (covered, assert_projects-Covers p projects (rw covered at h))
        | inr other ↦ absurd (ground arith)
      ]

  module _ (p : Principal) (socket : String) (r : Registry) (snapshot : ConnectedAgentSnapshot)
      (registered : find_snapshot_by_socket_id socket r ≡ some snapshot)
      (same : snapshot.agent_id ≡ p.agent_id) where
    project-IsOwn :
        (id : String) (session : Session) (project : Project)
        → L.find_session id ≡ some session
        → L.find_project session.project_id ≡ some project
        → assert_project L p snapshot r project ≡ ok tt
        → IsOwn p socket r id
    project-IsOwn id session project found of_session h = record {
      session = session;
      project = project;
      snapshot = snapshot;
      found = found;
      of_session = of_session;
      registered = registered;
      same_agent = same;
      covered = ground arith;
      announced = ground arith;
      bound = ground arith;
    }

    session-IsOwn :
        (id : String)
        → truthy id ≡ true
        → assert_session L p snapshot r (some id) ≡ ok tt
        → IsOwn p socket r id
    session-IsOwn id given h = elim (Option-cases (L.find_session id)) [
      | inl missing ↦ absurd (ground arith)
      | inr (session, found) ↦ elim (Option-cases (L.find_project session.project_id)) [
        | inl missing ↦ absurd (ground arith)
        | inr (project, of_session) ↦
            project-IsOwn id session project found of_session (rw (given, found, of_session) at h)
      ]
    ]

  module _ {B : Type 0} (p : Principal) (socket : String) (r : Registry) (e : AgentEvent B) where
    registered-IsOwn :
        assert_registered L p socket r e ≡ ok tt
        → (id : String) → resolve_session_id e ≡ some id
        → truthy id ≡ true
        → IsOwn p socket r id
    registered-IsOwn h id named given = elim (Option-cases (find_snapshot_by_socket_id socket r)) [
      | inl missing ↦ absurd (ground arith)
      | inr (snapshot, registered) ↦
          session-IsOwn p socket r snapshot registered
            (ground (arith, eq_iff snapshot.agent_id p.agent_id)) id given (ground arith)
    ]

    event-IsAllowed :
        (b : Body B) → assert_event L p socket r e b ≡ ok tt → IsAllowed p socket r e b
    event-IsAllowed (connected payload) h = (
      ground (arith, eq_iff payload.agent_id p.agent_id),
      assert_projects-Covers p payload.projects (ground arith),
    )
    event-IsAllowed (readiness key payload) h = registered-IsOwn h
    event-IsAllowed (error_report id payload) h = registered-IsOwn h
    event-IsAllowed (other_event payload) h = registered-IsOwn h

    authorized-IsAllowed :
        assert_event_authorized L (authenticated p) socket r e ≡ ok tt
        → (active_owner L p.owner_user_id p.agent_id ≡ true) × IsAllowed p socket r e e.body
    unfolding assert_event_authorized
    authorized-IsAllowed h = elim (Bool-cases (active_owner L p.owner_user_id p.agent_id)) [
      | inl active ↦ (active, event-IsAllowed e.body (rw active at h))
      | inr revoked ↦ absurd (ground arith)
    ]

module _ {B Db : Type 0} (L : Lookups) (persistence : Persistence B Db) where
  register-published :
      (identity : SocketIdentity) (socket : String) (b : Body B) (g : Gateway B Db)
      → (register_body L persistence identity socket b g).0.published ≡ g.published
  register-published identity socket (connected payload) g = ground arith
  register-published identity socket (readiness key payload) g = refl
  register-published identity socket (error_report id payload) g = refl
  register-published identity socket (other_event payload) g = refl

  persist-published :
      (socket : String) (e : AgentEvent B) (r : Gateway B Db × Bool)
      → let after = persist_event L persistence socket e r in
        after.0.published
        ≡ r.0.published
          ++ (if is_accepted after.1 then published_to (resolve_session_id e) e else [])
  persist-published socket e (g, false) = sym (append-nil g.published)
  persist-published socket e (g, true) = ground (arith, append-nil g.published)

  authorized-Acts :
      (identity : SocketIdentity) (socket : String) (e : AgentEvent B) (g : Gateway B Db)
      (result : Result GatewayError (Unit {0})) (Allowed : Type 0)
      → (result ≡ ok tt → Allowed)
      → let after = handle_authorized L persistence identity socket e result g in
        ((after ≡ (g, not_authorized)) ⊎ Allowed)
        × (after.0.published
            ≡ g.published
              ++ (if is_accepted after.1 then published_to (resolve_session_id e) e else []))
  authorized-Acts identity socket e g (err _) Allowed allow =
      (inl refl, sym (append-nil g.published))
  authorized-Acts identity socket e g (ok _) Allowed allow =
      let registered = register_body L persistence identity socket e.body g in
      (
        inr (allow refl),
        cc (persist-published socket e registered, register-published identity socket e.body g),
      )

-- An event of an authenticated agent either is answered as not authorized and changes nothing, or its credential is active and the event is allowed: an announcement is of the
-- agent itself, and its projects are covered by the credential; any other event that names a session
-- comes from the socket of the registered agent, whose credential covers the session's project and
-- the owner of it, which has announced the project and is connected for it. What is published is the
-- event alone, to the session that it names, and only where it is accepted.
pub handle_message-IsAllowed :
    {B Db : Type 0} (L : Lookups) (persistence : Persistence B Db) (p : Principal) (socket : String)
    (e : AgentEvent B) (g : Gateway B Db)
    → let after = handle_message L persistence (authenticated p) socket e g in
      ((after ≡ (g, not_authorized))
        ⊎ ((active_owner L p.owner_user_id p.agent_id ≡ true)
            × IsAllowed L p socket g.registry e e.body))
      × (after.0.published
          ≡ g.published
            ++ (if is_accepted after.1 then published_to (resolve_session_id e) e else []))
unfolding handle_message
handle_message-IsAllowed L persistence p socket e g =
    authorized-Acts L persistence (authenticated p) socket e g _ _
      (authorized-IsAllowed L p socket g.registry e)
