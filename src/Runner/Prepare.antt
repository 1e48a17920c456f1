-- ===== src/Runner/Prepare.antt =====
-- `prepareUnlocked` and `prepareHostWorkspace` of session-runner.ts. What the body throws carries
-- the variable `workspace` as it stood, for the `catch` behind it.
use pair_dock.Prelude.{
  String, Option, none, some, List, ◌∷◌, map, Result, ok, err, ◌<>◌, join, if◌then◌else◌,
}
use pair_dock.Prelude.Actions.{Action, ◌>>=◌, ◌>>◌, return, throw, catch}
use pair_dock.Prelude.Dict.{get}
use pair_dock.Domain.Status.{SessionStatus, worktree_creating, docker_starting, preview_starting}
use pair_dock.Session.Start.Create.{PrepareCommand}
use pair_dock.Workspaces.Sandbox.{
  ProjectPreviewConfig, SandboxRef, PreviewTunnelRef, SessionWorkspace,
}
use pair_dock.Workspaces.{find_active, find_persisted}
use pair_dock.Runner.Ports.{
  Failure, aggregate, error_message, delete_local, PreparedWorktree, RunnerPorts,
}
use pair_dock.Runner.{Host, Act, ask, present, register, unregister, start_sandbox, open_tunnel}
use pair_dock.Runner.Cleanup.{Cleanup, cleanup_workspace, is_empty}
use pair_dock.Runner.Inputs.{
  prepared_workspace, has_preview, chain, setup_result, sandbox_input, setup_input, companion_input,
  wait_input, tunnel_input, not_recovered, no_repository,
}

-- An exception, and the workspace at that point.
pub record Caught (V : Type 0) : Type 0 where
  pub workspace : V
  pub error : Failure

abbrev pub recorded_at : {S A V : Type 0} → V → S × Result Failure A → S × Result (Caught V) A
recorded_at v (s, ok a) = (s, ok a)
recorded_at v (s, err e) = (s, err (record { workspace = v; error = e }))

-- The part of the body in which `workspace` is `v`.
abbrev pub holding : {S A V : Type 0} → V → Action S Failure A → Action S (Caught V) A
holding v call s = recorded_at v (call s)

abbrev pub with_sandbox : SandboxRef → SessionWorkspace → SessionWorkspace
with_sandbox ref w = record w { sandbox_ref = some ref }

abbrev pub with_tunnel : PreviewTunnelRef → SessionWorkspace → SessionWorkspace
with_tunnel ref w = record w { tunnel_ref = some ref; preview_url = some ref.public_url }

module _ (P : RunnerPorts) where
  abbrev pub run_setup : SessionWorkspace → Option String → Act P (Unit {0})
  run_setup w none = return tt
  run_setup w (some command) = ask P (P.run_host_command (setup_input w command)) >>= λ result host.
      (host, setup_result w.session_id result)

  unfoldable pub prepare_host_workspace :
      SessionWorkspace → Option ProjectPreviewConfig → Act P (Unit {0})
  prepare_host_workspace w config = run_setup w (present (chain (λ c. c.setup_command) config))

  -- From the health check to the tunnel.
  unfoldable pub expose :
      SessionWorkspace → SandboxRef → Option ProjectPreviewConfig → Act P PreviewTunnelRef
  expose w ref config = ask P (P.wait_until_ready (wait_input config ref)) >>= λ url.
      ask P (P.start_companion url w.session_id)
      >> open_tunnel P (tunnel_input P.runtime_owner_id w ref config url)

  abbrev pub announce : String → SessionStatus → Act P (Unit {0})
  announce id status = ask P (P.on_progress id status)

  -- The four parts of the `try` block, by the value of `workspace`.
  unfoldable pub make_worktree : PrepareCommand → String → Act P PreparedWorktree
  make_worktree command repository_path =
      announce command.session_id worktree_creating
      >> ask P (P.prepare_worktree command repository_path)

  unfoldable pub boot_sandbox :
      PrepareCommand → Option ProjectPreviewConfig → SessionWorkspace → Act P SandboxRef
  unfolding prepare_host_workspace
  boot_sandbox command config w =
      register P w
      >> (prepare_host_workspace w config
          >> (ask P (
                P.prepare_companion (companion_input config command.project_key command.session_id))
              >>= λ session_config.
                  announce command.session_id docker_starting
                  >> start_sandbox P
                      (sandbox_input P.runtime_owner_id command.model_id w config session_config)))

  unfoldable pub boot_preview :
      PrepareCommand
      → Option ProjectPreviewConfig
      → SandboxRef
      → SessionWorkspace
      → Act P PreviewTunnelRef
  unfolding expose
  boot_preview command config ref w =
      register P w >> (announce command.session_id preview_starting >> expose w ref config)

  unfoldable pub build_workspace :
      PrepareCommand
      → String
      → Option ProjectPreviewConfig
      → Action (Host P.World) (Caught (Option SessionWorkspace)) SessionWorkspace
  unfolding make_worktree boot_sandbox boot_preview
  build_workspace command repository_path config =
      holding none (make_worktree command repository_path) >>= λ tree.
      let w = prepared_workspace command tree in
      holding (some w) (boot_sandbox command config w) >>= λ sandbox.
      let w1 = with_sandbox sandbox w in
      holding (some w1) (boot_preview command config sandbox w1) >>= λ tunnel.
      let w2 = with_tunnel tunnel w1 in holding (some w2) (register P w2) >> return w2

  abbrev pub cleanup_failed : Failure → List Failure → Failure
  cleanup_failed e errors =
      aggregate (error_message e ∷ map error_message errors)
        (error_message e <> " Cleanup also failed: " <> join "; " (map error_message errors))

  abbrev pub clean_or_fail :
      String → Failure → Cleanup P.World → Host P.World × Result Failure SessionWorkspace
  clean_or_fail id e c =
      if is_empty c.errors
      then (unregister P id >> throw e) c.host
      else (c.host, err (cleanup_failed e c.errors))

  -- The `catch` block.
  abbrev pub clean_up : String → Failure → Option SessionWorkspace → Act P SessionWorkspace
  clean_up id e none host = (host, err e)
  clean_up id e (some w) host = clean_or_fail id e (cleanup_workspace P w delete_local host)

  unfoldable pub abandon : String → Caught (Option SessionWorkspace) → Act P SessionWorkspace
  unfolding cleanup_workspace
  abandon id caught = clean_up id caught.error caught.workspace

  abbrev pub prepare_new : PrepareCommand → Act P SessionWorkspace
  prepare_new command host = elim (find_persisted command.session_id host.registry) [
    | some _ ↦ (host, err (not_recovered command.session_id))
    | none ↦ elim (present (get command.project_key P.project_paths)) [
      | none ↦ (host, err (no_repository command.project_key))
      | some path ↦
          catch (build_workspace command path (get command.project_key P.preview_configs))
            (abandon command.session_id) host
    ]
  ]

  unfoldable pub prepare : PrepareCommand → Act P SessionWorkspace
  unfolding build_workspace abandon
  prepare command host = elim (find_active command.session_id host.registry) [
    | none ↦ prepare_new command host
    | some active ↦ if has_preview active then (host, ok active) else prepare_new command host
  ]
