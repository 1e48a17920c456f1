-- ===== src/Runner/Runs.antt =====
-- Whole runs: any operations on any sessions, and a restart of the agent, keep the account where the
-- store works.
use pair_dock.Prelude.{
  String, List, [], ◌∷◌, ◌≡◌, refl, sym, subst, inl, inr, Result, ok, err, Option-cases, arith,
}
use pair_dock.Prelude.Dict.{get}
use pair_dock.Prelude.Actions.{After, After-map, continue, return}
use pair_dock.Session.Start.Create.{PrepareCommand}
use pair_dock.Workspaces.Sandbox.{SessionWorkspace}
use pair_dock.Workspaces.{SessionRegistry, find_active, list_active, list_persisted}
use pair_dock.Workspaces.Begin.{IsSound}
use pair_dock.Runner.Ports.{Failure, CloseMode, RunnerPorts}
use pair_dock.Runner.{Host, Act, settle, push_branch, run_command}
use pair_dock.Runner.Cleanup.{
  close, tried, each, raise_all, cleanup_all, remove_preview_resources, stop_preview, shutdown,
}
use pair_dock.Runner.Prepare.{prepare}
use pair_dock.Runner.Accounts.{Accounted, SaveWorks}
use pair_dock.Runner.Owned.{Holds}
use pair_dock.Runner.Closing.{RefersToNothing}
use pair_dock.Runner.Closed.{IsKept, IsGone, Holds-IsKept, persisted-Holds, close-After}
use pair_dock.Runner.Ready.{IsReady, prepare-Prepares}
use pair_dock.Runner.Removing.{remove-Empties}

-- What the runner is asked to do.
pub data Operation : Type 0 where
  prepares : PrepareCommand → Operation
  closes : (session_id : String) → CloseMode → Operation
  pushes : (session_id commit_message : String) → Operation
  runs : (session_id command : String) → Operation
  cleans_up : CloseMode → Operation
  shuts_down : Operation

-- The registry is well formed, and everything that runs is recorded.
pub record InOrder {W : Type 0} (host : Host W) : Type 0 where
  pub sound : IsSound host.registry
  pub accounted : Accounted host

module _ (P : RunnerPorts) where
  abbrev pub perform : Operation → Host P.World → Host P.World
  perform (prepares command) host = (prepare P command host).0
  perform (closes id mode) host = (close P id mode host).0
  perform (pushes id message) host = (push_branch P id message host).0
  perform (runs id command) host = (run_command P id command host).0
  perform (cleans_up mode) host = (cleanup_all P mode host).0
  perform shuts_down host = (shutdown P host).0

  unfoldable pub perform_all : List Operation → Host P.World → Host P.World
  perform_all [] host = host
  perform_all (operation ∷ operations) host = perform_all operations (perform operation host)

  -- However a call ends, its state is in order.
  state-InOrder :
      {A : Type 0} (p : Host P.World × Result Failure A)
      → After (λ _ s. InOrder s) (λ _ s. InOrder s) p
      → InOrder p.0
  state-InOrder (s, ok a) h = h
  state-InOrder (s, err e) h = h

  settle-InOrder :
      {A : Type 0} (host : Host P.World) (answer : P.World × Result Failure A)
      → InOrder host
      → InOrder (settle host (λ _ after. after) answer).0
  settle-InOrder host (w, ok a) o = record {
    sound = o.sound;
    accounted = record { sandboxes = o.accounted.sandboxes; tunnels = o.accounted.tunnels };
  }
  settle-InOrder host (w, err e) o = record {
    sound = o.sound;
    accounted = record { sandboxes = o.accounted.sandboxes; tunnels = o.accounted.tunnels };
  }

  push_branch-InOrder :
      (id message : String) (host : Host P.World)
      → InOrder host
      → InOrder (push_branch P id message host).0
  unfolding push_branch
  push_branch-InOrder id message host o = elim (Option-cases (find_active id host.registry)) [
    | inl missing ↦ ground (arith, missing)
    | inr (w, found) ↦
        ground (arith, found, settle-InOrder host (P.push_worktree_branch w message host.world) o)
  ]

  run_command-InOrder :
      (id command : String) (host : Host P.World)
      → InOrder host
      → InOrder (run_command P id command host).0
  unfolding run_command
  run_command-InOrder id command host o = elim (Option-cases (find_active id host.registry)) [
    | inl missing ↦ ground (arith, missing)
    | inr (w, found) ↦ ground (
      arith,
      found,
      settle-InOrder host
          (P.run_host_command
            (record { command = command; session_id = id; worktree_path = w.worktree_path })
            host.world)
          o,
    )
  ]

  tried-state :
      (errors : List Failure) (p : Host P.World × Result Failure (Unit {0}))
      → (tried P errors p).0 ≡ p.0
  tried-state errors (s, ok _) = refl
  tried-state errors (s, err e) = refl

  raise_all-state : (h : Host P.World × List Failure) → (raise_all P h).0 ≡ h.0
  raise_all-state (s, []) = refl
  raise_all-state (s, e ∷ errors) = refl

  module _ (works : SaveWorks P) where
    kept-InOrder :
        (id : String) (before : SessionRegistry) (s : Host P.World)
        → IsKept P id before s
        → InOrder s
    kept-InOrder id before s k = record { sound = k.sound; accounted = k.accounted works }

    close-InOrder :
        (id : String) (mode : CloseMode) (host : Host P.World)
        → InOrder host
        → InOrder (close P id mode host).0
    close-InOrder id mode host o = state-InOrder (close P id mode host) (
        After-map {Q = λ _ s. IsGone P id host.registry s} {R = λ _ s. InOrder s}
          {X = λ _ s. IsKept P id host.registry s} {Y = λ _ s. InOrder s} (close P id mode host)
          (λ _ s g. record { sound = g.sound; accounted = g.accounted })
          (λ _ s k. kept-InOrder id host.registry s k)
          (close-After P id mode host o.sound o.accounted))

    prepare-InOrder :
        (command : PrepareCommand) (host : Host P.World)
        → InOrder host
        → InOrder (prepare P command host).0
    prepare-InOrder command host o = state-InOrder (prepare P command host) (
        After-map {Q = IsReady P command.session_id host.registry} {R = λ _ s. InOrder s}
          {X = λ _ s. IsKept P command.session_id host.registry s} {Y = λ _ s. InOrder s}
          (prepare P command host)
          (λ _ s r. record { sound = r.kept.sound; accounted = r.accounted })
          (λ _ s k. kept-InOrder command.session_id host.registry s k)
          (prepare-Prepares P command host o.sound o.accounted))

    -- A loop of tried calls.
    each-InOrder :
        (body : SessionWorkspace → Act P (Unit {0}))
        → ((w : SessionWorkspace) (s : Host P.World) → InOrder s → InOrder (body w s).0)
        → (workspaces : List SessionWorkspace) (h : Host P.World × List Failure) → InOrder h.0
        → InOrder (each P body workspaces h).0
    unfolding each
    each-InOrder body keeps [] h o = o
    each-InOrder body keeps (w ∷ workspaces) h o =
        each-InOrder body keeps workspaces (tried P h.1 (body w h.0))
          (subst InOrder (sym (tried-state h.1 (body w h.0))) (keeps w h.0 o))

    cleanup_all-InOrder :
        (mode : CloseMode) (host : Host P.World)
        → InOrder host
        → InOrder (cleanup_all P mode host).0
    unfolding cleanup_all
    cleanup_all-InOrder mode host o = subst InOrder (sym (raise_all-state _)) (
        each-InOrder (λ w. close P w.session_id mode) (λ w s. close-InOrder w.session_id mode s)
          (list_persisted host.registry) (host, []) o)

    removed-InOrder :
        (id : String) (before : SessionRegistry)
        (p : Host P.World × Result Failure SessionWorkspace)
        → After (λ w s. Holds P id before w s × RefersToNothing w) (λ _ s. IsKept P id before s) p
        → InOrder (continue p (λ _. return {E = Failure} tt)).0
    removed-InOrder id before (s, ok w) (held, _) =
        kept-InOrder id before s (Holds-IsKept P id before w s held)
    removed-InOrder id before (s, err e) kept = kept-InOrder id before s kept

    stop_preview-InOrder :
        (id : String) (host : Host P.World) → InOrder host → InOrder (stop_preview P id host).0
    stop_preview-InOrder id host o = elim (Option-cases (find_active id host.registry)) [
      | inl quiet ↦
          let called : stop_preview P id host ≡ (host, ok tt) = ground (arith, quiet) in
          subst (λ q. InOrder q.0) (sym called) o
      | inr (w, active) ↦
          let removing = remove_preview_resources P w (get w.project_key P.preview_configs) host in
          let called : stop_preview P id host ≡ continue removing (λ _. return tt) =
            ground (arith, active) in
          subst (λ q. InOrder q.0) (sym called)
            (removed-InOrder id host.registry removing (
              remove-Empties P id host.registry w (get w.project_key P.preview_configs) host
                (persisted-Holds P id w host o.sound o.accounted (o.sound.agrees id w active))))
    ]

    shutdown-InOrder : (host : Host P.World) → InOrder host → InOrder (shutdown P host).0
    unfolding shutdown
    shutdown-InOrder host o = subst InOrder (sym (raise_all-state _)) (
        each-InOrder (λ w. stop_preview P w.session_id) (λ w s. stop_preview-InOrder w.session_id s)
          (list_active host.registry) (host, []) o)

    perform-InOrder :
        (operation : Operation) (host : Host P.World)
        → InOrder host
        → InOrder (perform operation host)
    perform-InOrder (prepares command) host = prepare-InOrder command host
    perform-InOrder (closes id mode) host = close-InOrder id mode host
    perform-InOrder (pushes id message) host = push_branch-InOrder id message host
    perform-InOrder (runs id command) host = run_command-InOrder id command host
    perform-InOrder (cleans_up mode) host = cleanup_all-InOrder mode host
    perform-InOrder shuts_down host = shutdown-InOrder host

    -- Where every save succeeds, any sequence of operations keeps the registry well formed and
    -- everything that runs recorded in the persisted workspace of its session, whichever calls of the
    -- ports throw.
    pub perform_all-InOrder :
        (operations : List Operation) (host : Host P.World)
        → InOrder host
        → InOrder (perform_all operations host)
    unfolding perform_all
    perform_all-InOrder [] host o = o
    perform_all-InOrder (operation ∷ operations) host o =
        perform_all-InOrder operations (perform operation host) (perform-InOrder operation host o)
