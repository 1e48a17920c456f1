-- ===== src/Client/Laws.antt =====
-- What an acknowledgement of the client tells the backend.
use pair_dock.Prelude.{
  String, ◌+◌, true, false, none, ◌≡◌, ◌≢◌, refl, sym, ap, subst, ◌∙◌, inl, inr, Result, ok, err,
  All, arith, Bool-cases,
}
use pair_dock.Prelude.Actions.{continue, rescue, throw, ◌>>◌}
use pair_dock.Workspaces.{find_persisted}
use pair_dock.Workspaces.Begin.{IsSound}
use pair_dock.Runner.Ports.{Failure, CloseMode}
use pair_dock.Runner.{Host}
use pair_dock.Runner.Cleanup.{close}
use pair_dock.Runner.Accounts.{Accounted}
use pair_dock.Runner.Closed.{close-leaves_nothing}
use pair_dock.Client.{
  ClientPorts, Client, ClientEvent, session_closed, Thrown, accepted, session_close, as_failure,
  on_host, acknowledged, tracked, emit_event, emit_error, Handle, handle_session_close,
  handle_protocol_message, on_message,
}

module _ (C : ClientPorts) where
  -- Nothing of the session is left on this host.
  pub record LeavesNothing (id : String) (host : Host C.runner.World) : Type 0 where
    pub forgotten : find_persisted id host.registry ≡ none
    pub no_sandbox : All (λ r. r.owner ≢ id) host.sandboxes
    pub no_tunnel : All (λ r. r.owner ≢ id) host.tunnels
    pub accounted : Accounted host

  -- The registry and what runs are as they were.
  abbrev SameHost : Host C.runner.World → Host C.runner.World → Type 0
  SameHost host host' =
      (host'.registry ≡ host.registry)
      × (host'.sandboxes ≡ host.sandboxes)
      × (host'.tunnels ≡ host.tunnels)

  emit-SameHost :
      (event : ClientEvent) (client : Client C.runner.World)
      → SameHost client.host (emit_event C event client).0.host
  emit-SameHost event client = ground (arith)

  never_returns :
      (p : Client C.runner.World × Result Thrown (Unit {0})) (e : Thrown)
      {after : Client C.runner.World}
      → continue p (λ _. throw {A = Unit {0}} e) ≡ (after, ok tt)
      → ⊥
  never_returns (c, ok _) e h = cc (ap (λ q. q.1) h)
  never_returns (c, err e') e h = cc (ap (λ q. q.1) h)

  -- A `catch` that throws again does not run where the call has returned.
  rescued_returns :
      (p : Client C.runner.World × Result Thrown (Unit {0})) (f : Thrown → Handle C (Unit {0}))
      {after : Client C.runner.World}
      → rescue p (λ e. f e >> throw {A = Unit {0}} e) ≡ (after, ok tt)
      → p ≡ (after, ok tt)
  rescued_returns (c, ok _) f h = h
  rescued_returns (c, err e) f h = absurd (never_returns (f e c) e h)

  -- The event behind a close that has returned.
  emitted_behind :
      (client : Client C.runner.World) (p : Host C.runner.World × Result Failure (Unit {0}))
      (event : ClientEvent) {after : Client C.runner.World}
      → continue (on_host client p) (λ _. emit_event C event) ≡ (after, ok tt)
      → (p ≡ (p.0, ok tt)) × SameHost p.0 after.host
  emitted_behind client (host, ok _) event h = (
    refl,
    let same = emit-SameHost event (record client { host = host }) in
        subst (λ q. SameHost host q.0.host) h same,
  )
  emitted_behind client (host, err e) event h = absurd (cc (ap (λ q. q.1) h))

  close_handled :
      (id : String) (mode : CloseMode) (client : Client C.runner.World)
      {after : Client C.runner.World}
      → handle_session_close C id mode client ≡ (after, ok tt)
      → (close C.runner id mode client.host ≡ ((close C.runner id mode client.host).0, ok tt))
        × SameHost (close C.runner id mode client.host).0 after.host
  unfolding handle_session_close
  close_handled id mode client h =
      emitted_behind client (close C.runner id mode client.host) (session_closed id true) (
        rescued_returns
          (continue (on_host client (close C.runner id mode client.host))
            (λ _. emit_event C (session_closed id true)))
          (λ e. emit_error C "session.close.failed" id (as_failure e) false) h)

  acknowledged_returns :
      (p : Client C.runner.World × Result Thrown (Unit {0})) {after : Client C.runner.World}
      → acknowledged (tracked C p) ≡ (after, accepted)
      → (q : Client C.runner.World) × (p ≡ (q, ok tt)) × (after.host ≡ q.host)
  acknowledged_returns (c, ok _) h = (c, refl, ap (λ r. r.0.host) (sym h))
  acknowledged_returns (c, err e) h = absurd (cc (ap (λ r. r.1) h))

  same-LeavesNothing :
      (id : String) (host host' : Host C.runner.World)
      → SameHost host host'
      → LeavesNothing id host
      → LeavesNothing id host'
  same-LeavesNothing id host host' (registry, sandboxes, tunnels) n = record {
    forgotten = rw registry n.forgotten;
    no_sandbox = rw sandboxes n.no_sandbox;
    no_tunnel = rw tunnels n.no_tunnel;
    accounted = record {
      sandboxes = rw (registry, sandboxes) n.accounted.sandboxes;
      tunnels = rw (registry, tunnels) n.accounted.tunnels;
    };
  }

  -- Where everything that runs is recorded and the registry is well formed, a command to close that the
  -- client acknowledges as accepted leaves no persisted workspace of its session and no sandbox or
  -- tunnel that runs for it, and everything that runs is recorded.
  pub accepted_close-LeavesNothing :
      (id : String) (mode : CloseMode) (client : Client C.runner.World)
      {after : Client C.runner.World}
      → IsSound client.host.registry
      → Accounted client.host
      → on_message C (session_close id mode) client ≡ (after, accepted)
      → LeavesNothing id after.host
  unfolding on_message handle_protocol_message
  accepted_close-LeavesNothing id mode client {after} sound accounted h =
      elim (Bool-cases client.stopping) [
        | inl stopping ↦ absurd (ground (arith, stopping, ap (λ r. r.1) h))
        | inr running ↦
            let started : Client C.runner.World = record client {
              active_commands = client.active_commands + 1;
            } in
            let handled = handle_session_close C id mode started in
            let called : on_message C (session_close id mode) client
                ≡ acknowledged (tracked C handled) =
              ground (arith, running) in
            let (q, returned, same) = acknowledged_returns handled (sym called ∙ h) in
            let (closed, kept) = close_handled id mode started returned in
            let (forgotten, no_sandbox, no_tunnel, _, recorded) =
              close-leaves_nothing C.runner id mode client.host sound accounted closed in
            subst (LeavesNothing id) (sym same) (
              same-LeavesNothing id (close C.runner id mode client.host).0 q.host kept (record {
                forgotten = forgotten;
                no_sandbox = no_sandbox;
                no_tunnel = no_tunnel;
                accounted = recorded;
              }))
      ]
