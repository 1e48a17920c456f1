-- ===== src/Runner/Closing.antt =====
-- A close that returns leaves nothing of its session, and every cleanup keeps the account.
use pair_dock.Prelude.{
  String, Bool, true, false, Option, none, List, [], ◌∷◌, ◌++◌, ◌≡◌, refl, sym, ap, subst, ◌∙◌, inl,
  inr, Result, ok, err, Option-cases, arith,
}
use pair_dock.Prelude.Dict.{get}
use pair_dock.Workspaces.Sandbox.{ProjectPreviewConfig, SessionWorkspace}
use pair_dock.Workspaces.{SessionRegistry}
use pair_dock.Runner.Ports.{Failure, CloseMode, RunnerPorts}
use pair_dock.Runner.{Host, ask, update, stop_sandbox, close_tunnel}
use pair_dock.Runner.Cleanup.{
  Cleanup, without_tunnel, without_sandbox, noted, is_empty, companion_stopped, tunnel_closed,
  release_tunnel, sandbox_stopped, release_sandbox, worktree_cleaned, cleanup_workspace, resolved,
}
use pair_dock.Runner.Owned.{Holds, Both, ask-Holds, update-Holds}
use pair_dock.Runner.Started.{Follows, stop_sandbox-Follows, close_tunnel-Follows}

-- A workspace that refers to nothing that could run.
abbrev pub RefersToNothing : SessionWorkspace → Type 0
RefersToNothing w = (w.sandbox_ref ≡ none) × (w.tunnel_ref ≡ none)

not_empty : (errors : List Failure) (e : Failure) → is_empty (errors ++ e ∷ []) ≡ false
not_empty [] e = refl
not_empty (_ ∷ _) e = refl

module _ (P : RunnerPorts) (id : String) (before : SessionRegistry) where
  -- A step of a cleanup, and what it has done where it notes no error.
  pub record Progress (Done : SessionWorkspace → Type 0) (c c' : Cleanup P.World) : Type 0 where
    pub holds : Holds P id before c'.remaining c'.host
    pub clean : is_empty c'.errors ≡ true → (is_empty c.errors ≡ true) × Done c'.remaining

  failed-Progress :
      (Done : SessionWorkspace → Type 0) (c : Cleanup P.World) (rest : SessionWorkspace)
      (host : Host P.World) (e : Failure)
      → Holds P id before rest host
      → Progress Done c (record { host = host; remaining = rest; errors = c.errors ++ e ∷ [] })
  failed-Progress Done c rest host e h = record {
    holds = h;
    clean = λ empty. cc (not_empty c.errors e, empty);
  }

  noted-Progress :
      (Done : SessionWorkspace → Type 0) (c : Cleanup P.World) (rest : SessionWorkspace)
      (p : Host P.World × Result Failure (Unit {0}))
      → Done rest
      → Both P id before rest p
      → Progress Done c (noted rest c.errors p)
  noted-Progress Done c rest (host, ok _) done h = record {
    holds = h;
    clean = λ empty. (empty, done);
  }
  noted-Progress Done c rest (host, err e) done h = failed-Progress Done c rest host e h

  module _ (c : Cleanup P.World) (h : Holds P id before c.remaining c.host) where
    pub companion-Progress :
        (cleanup_sessions : Bool)
        → Progress (λ w. w ≡ c.remaining) c (companion_stopped P cleanup_sessions c)
    companion-Progress cleanup_sessions =
        noted-Progress (λ w. w ≡ c.remaining) c c.remaining
          (ask P (P.stop_companion cleanup_sessions c.remaining.session_id) c.host) refl
          (ask-Holds P id before c.remaining c.host h
            (P.stop_companion cleanup_sessions c.remaining.session_id))

    worktree-Progress :
        (mode : CloseMode) → Progress (λ w. w ≡ c.remaining) c (worktree_cleaned P mode c)
    worktree-Progress mode =
        noted-Progress (λ w. w ≡ c.remaining) c c.remaining
          (ask P (P.cleanup_worktree c.remaining mode) c.host) refl
          (ask-Holds P id before c.remaining c.host h (P.cleanup_worktree c.remaining mode))

    abbrev NoTunnel : SessionWorkspace → Type 0
    NoTunnel w = (w.tunnel_ref ≡ none) × (w.sandbox_ref ≡ c.remaining.sandbox_ref)

    abbrev NoSandbox : SessionWorkspace → Type 0
    NoSandbox w = (w.sandbox_ref ≡ none) × (w.tunnel_ref ≡ c.remaining.tunnel_ref)

    tunnel_closed-Progress :
        (p : Host P.World × Result Failure (Unit {0}))
        → Follows P id before c.remaining (without_tunnel c.remaining) p
        → Progress NoTunnel c (tunnel_closed P c p)
    tunnel_closed-Progress (host, ok _) (owns, known) =
        noted-Progress NoTunnel c (without_tunnel c.remaining)
          (update P (without_tunnel c.remaining) host) (refl, refl)
          (update-Holds P id before (without_tunnel c.remaining) host owns known)
    tunnel_closed-Progress (host, err e) held = failed-Progress NoTunnel c c.remaining host e held

    pub release_tunnel-Progress :
        (config : Option ProjectPreviewConfig) → Progress NoTunnel c (release_tunnel P config c)
    unfolding release_tunnel
    release_tunnel-Progress config = elim (Option-cases c.remaining.tunnel_ref) [
      | inl free ↦
          let same : release_tunnel P config c ≡ c = ground (arith, free) in
          subst (Progress NoTunnel c) (sym same)
            (record { holds = h; clean = λ empty. (empty, (free, refl)) })
      | inr (ref, had) ↦
          let closing = close_tunnel P ref config c.host in
          let called : release_tunnel P config c ≡ tunnel_closed P c closing =
            ground (arith, had) in
          subst (Progress NoTunnel c) (sym called) (
            tunnel_closed-Progress closing
              (close_tunnel-Follows P id before c.remaining c.host h ref config had))
    ]

    sandbox_stopped-Progress :
        (p : Host P.World × Result Failure (Unit {0}))
        → Follows P id before c.remaining (without_sandbox c.remaining) p
        → Progress NoSandbox c (sandbox_stopped P c p)
    sandbox_stopped-Progress (host, ok _) (owns, known) =
        noted-Progress NoSandbox c (without_sandbox c.remaining)
          (update P (without_sandbox c.remaining) host) (refl, refl)
          (update-Holds P id before (without_sandbox c.remaining) host owns known)
    sandbox_stopped-Progress (host, err e) held =
        failed-Progress NoSandbox c c.remaining host e held

    pub release_sandbox-Progress :
        (config : Option ProjectPreviewConfig) → Progress NoSandbox c (release_sandbox P config c)
    unfolding release_sandbox
    release_sandbox-Progress config = elim (Option-cases c.remaining.sandbox_ref) [
      | inl free ↦
          let same : release_sandbox P config c ≡ c = ground (arith, free) in
          subst (Progress NoSandbox c) (sym same)
            (record { holds = h; clean = λ empty. (empty, (free, refl)) })
      | inr (ref, had) ↦
          let stopping = stop_sandbox P ref config c.host in
          let called : release_sandbox P config c ≡ sandbox_stopped P c stopping =
            ground (arith, had) in
          subst (Progress NoSandbox c) (sym called) (
            sandbox_stopped-Progress stopping
              (stop_sandbox-Follows P id before c.remaining c.host h ref config had))
    ]

  -- A cleanup notes no error only where it has stopped what ran.
  pub cleanup_workspace-Progress :
      (w : SessionWorkspace) (mode : CloseMode) (host : Host P.World)
      → Holds P id before w host
      → Progress RefersToNothing
          (record { host = host; remaining = w; errors = [] })
          (cleanup_workspace P w mode host)
  unfolding cleanup_workspace
  cleanup_workspace-Progress w mode host h =
      let config = resolved w.sandbox_ref (get w.project_key P.preview_configs) in
      let c0 : Cleanup P.World = record { host = host; remaining = w; errors = [] } in
      let c1 = companion_stopped P true c0 in
      let p1 = companion-Progress c0 h true in
      let c2 = release_tunnel P config c1 in
      let p2 = release_tunnel-Progress c1 p1.holds config in
      let c3 = release_sandbox P config c2 in
      let p3 = release_sandbox-Progress c2 p2.holds config in
      let p4 = worktree-Progress c3 p3.holds mode in
      record {
        holds = p4.holds;
        clean = λ empty.
            let (e3, same) = p4.clean empty in
            let (e2, (no_sandbox, same_tunnel)) = p3.clean e3 in
            let (e1, (no_tunnel, _)) = p2.clean e2 in
            (
              refl,
              (
                ap (λ v. v.sandbox_ref) same ∙ no_sandbox,
                ap (λ v. v.tunnel_ref) same ∙ same_tunnel ∙ no_tunnel,
              ),
            );
      }
