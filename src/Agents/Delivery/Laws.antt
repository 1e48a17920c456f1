-- ===== src/Agents/Delivery/Laws.antt =====
-- A command that is delivered and waited for has been accepted by the agent of its project.
use pair_dock.Prelude.{
  String, Bool, true, false, Option, none, some, [], ◌∷◌, ◌++◌, ◌≡◌, refl, sym, ap, inl, inr,
  truthy, Result, ok, err, Bool-cases, Option-cases, arith,
}
use pair_dock.Domain.{Project, Session}
use pair_dock.Agents.Registry.{find_socket_id}
use pair_dock.Agents.Delivery.{
  Command, Reply, accepts, refuses, no_reply, RouteError, Hub, Network, disconnect_agent,
  assert_socket_agent_active, send, acknowledged, emit_to_agent, delivered, route_to_project,
  route_to_owning_agent,
}

-- The command has gone to the socket that is found for the project, and was accepted there.
pub record IsCleaned (net : Network) (key : String) (command : Command) (hub hub' : Hub)
    : Type 0 where
  pub socket : String
  pub found : find_socket_id key hub.registry ≡ some socket
  pub sent : hub'.sent ≡ hub.sent ++ (socket, command) ∷ []
  pub accepted : net.reply socket command ≡ accepts

module _ (net : Network) where
  disconnect-sent :
      (agent_id : String) (hub : Hub) → (disconnect_agent net agent_id hub).sent ≡ hub.sent
  disconnect-sent agent_id hub = ground arith

  -- To check a credential sends nothing.
  assert_active-sent :
      (socket : String) (hub : Hub) → (assert_socket_agent_active net socket hub).0.sent ≡ hub.sent
  unfolding assert_socket_agent_active
  assert_active-sent socket hub = ground arith

  acknowledged-accepts : (r : Reply) → acknowledged net r ≡ ok true → r ≡ accepts
  acknowledged-accepts accepts h = refl
  acknowledged-accepts (refuses none) h = cc
  acknowledged-accepts (refuses (some message)) h = ground arith
  acknowledged-accepts no_reply h = cc

  send-accepts :
      (command : Command) (socket : String) (q : Hub × Result RouteError (Unit {0})) (hub' : Hub)
      → send net true command socket q ≡ (hub', ok true)
      → (net.reply socket command ≡ accepts) × (hub'.sent ≡ q.0.sent ++ (socket, command) ∷ [])
  send-accepts command socket (hub, err e) hub' h = absurd (ground arith)
  send-accepts command socket (hub, ok _) hub' h = (
    acknowledged-accepts (net.reply socket command) (ap (λ p. p.1) h),
    ap (λ p. p.0.sent) (sym h),
  )

  emit-IsCleaned :
      (key : String) (command : Command) (hub hub' : Hub)
      → emit_to_agent net true key command hub ≡ (hub', ok true)
      → IsCleaned net key command hub hub'
  unfolding emit_to_agent
  emit-IsCleaned key command hub hub' h = elim (Option-cases (find_socket_id key hub.registry)) [
    | inl missing ↦ absurd (ground arith)
    | inr (socket, found) ↦ elim (Bool-cases (truthy socket)) [
      | inr empty ↦ absurd (ground arith)
      | inl named ↦
          let (accepted, sent) =
            send-accepts command socket (assert_socket_agent_active net socket hub) hub'
              (ground arith) in
          record {
            socket = socket;
            found = found;
            sent = rw (← assert_active-sent socket hub) sent;
            accepted = accepted;
          }
    ]
  ]

  delivered-ok :
      (q : Hub × Result RouteError Bool) (hub' : Hub)
      → delivered net q ≡ (hub', ok tt)
      → q ≡ (hub', ok true)
  delivered-ok (hub, ok true) hub' h = ap (λ p. (p.0, ok true)) h
  delivered-ok (hub, ok false) hub' h = absurd (ground arith)
  delivered-ok (hub, err e) hub' h = absurd (ground arith)

  module _ (fold : String → String) (find_session : String → Option Session)
      (find_project : String → Option Project) where
    pub route-IsCleaned :
        (session_id : String) (s : Session) (command : Command) (hub hub' : Hub)
        → find_session session_id ≡ some s
        → route_to_owning_agent net fold find_session find_project true session_id command hub
          ≡ (hub', ok tt)
        → (p : Project) × (find_project s.project_id ≡ some p)
          × IsCleaned net p.agent_project_key command hub hub'
    unfolding route_to_owning_agent
    route-IsCleaned session_id s command hub hub' stored h =
        elim (Option-cases (find_project s.project_id)) [
          | inl missing ↦ absurd (ground (arith, h, stored, missing))
          | inr (p, found) ↦
              let routed : route_to_project net fold find_session find_project true command p hub
                  ≡ (hub', ok tt) =
                ground (arith, h, stored, found) in
              (p, found, project-IsCleaned p command hub hub' routed)
        ]
      where
        project-IsCleaned :
            (p : Project) (command : Command) (hub hub' : Hub)
            → route_to_project net fold find_session find_project true command p hub ≡ (hub', ok tt)
            → IsCleaned net p.agent_project_key command hub hub'
        project-IsCleaned p command hub hub' h =
            emit-IsCleaned p.agent_project_key command hub hub' (
              delivered-ok (emit_to_agent net true p.agent_project_key command hub) hub'
                (ground arith))
