-- ===== src/Runner/Inputs.antt =====
-- What `prepareUnlocked` and `rebuildPreview` of session-runner.ts give to the ports, and the errors
-- that they throw themselves.
use pair_dock.Prelude.{
  String, Bool, false, ◌&&◌, Option, none, some, Result, ok, err, ◌<>◌, truthy, is_some,
  if◌then◌else◌,
}
use pair_dock.Prelude.Decimal.{is_zero}
use pair_dock.Session.Start.Create.{PrepareCommand}
use pair_dock.Workspaces.Sandbox.{ProjectPreviewConfig, SandboxRef, SessionWorkspace}
use pair_dock.Runner.Ports.{
  Failure, thrown, PreparedWorktree, CheckCommandResult, SandboxStartInput, CheckCommandInput,
  CompanionInput, HealthcheckWaitInput, PreviewTunnelOpenInput,
}
use pair_dock.Runner.{present}

abbrev pub own_config : SandboxRef → Option ProjectPreviewConfig → Option ProjectPreviewConfig
own_config ref config = elim ref.preview_config [ none ↦ config | some own ↦ some own ]

abbrev pub prepared_workspace : PrepareCommand → PreparedWorktree → SessionWorkspace
prepared_workspace command tree = record {
  repository_path = tree.repository_path;
  worktree_path = tree.worktree_path;
  branch_name = tree.branch_name;
  session_id = command.session_id;
  project_key = command.project_key;
  model_id = some command.model_id;
  sandbox_ref = none;
  tunnel_ref = none;
  preview_url = none;
}

abbrev pub has_preview : SessionWorkspace → Bool
has_preview w = is_some w.sandbox_ref && is_some w.tunnel_ref

-- `config?.field`.
abbrev pub chain :
    {A : Type 0} → (ProjectPreviewConfig → Option A) → Option ProjectPreviewConfig → Option A
chain field none = none
chain field (some config) = field config

abbrev pub setup_result : String → CheckCommandResult → Result Failure (Unit {0})
setup_result session_id result =
    if is_zero result.exit_code
    then ok tt
    else err (
        thrown
          ("Project setup failed for session "
            <> session_id
            <> "."
            <> (if truthy result.logs then " " <> result.logs else ""))
          false)

-- What `sandboxPort.start` is given.
abbrev pub sandbox_input :
    Option String
    → String
    → SessionWorkspace
    → Option ProjectPreviewConfig
    → Option ProjectPreviewConfig
    → SandboxStartInput
sandbox_input owner model_id w config session_config = record {
  branch_name = w.branch_name;
  model_id = model_id;
  preview_config = elim session_config [ none ↦ config | some own ↦ some own ];
  project_key = w.project_key;
  repository_path = w.repository_path;
  runtime_owner_id = present owner;
  session_id = w.session_id;
  worktree_path = w.worktree_path;
}

abbrev pub setup_input : SessionWorkspace → String → CheckCommandInput
setup_input w command = record {
  command = command;
  session_id = w.session_id;
  worktree_path = w.worktree_path;
}

abbrev pub companion_input : Option ProjectPreviewConfig → String → String → CompanionInput
companion_input config project_key session_id = record {
  preview_config = config;
  project_key = project_key;
  session_id = session_id;
}

abbrev pub wait_input : Option ProjectPreviewConfig → SandboxRef → HealthcheckWaitInput
wait_input config ref = record {
  interval_ms = chain (λ c. c.healthcheck_interval_ms) config;
  sandbox_ref = ref;
  timeout_ms = chain (λ c. c.healthcheck_timeout_ms) config;
}

-- What `previewTunnelPort.open` is given.
abbrev pub tunnel_input :
    Option String
    → SessionWorkspace
    → SandboxRef
    → Option ProjectPreviewConfig
    → String
    → PreviewTunnelOpenInput
tunnel_input owner w ref config url = record {
  local_url = url;
  preview_config = own_config ref config;
  project_key = w.project_key;
  runtime_owner_id = present owner;
  session_id = w.session_id;
  worktree_path = w.worktree_path;
}

abbrev pub not_recovered : String → Failure
not_recovered id =
    thrown
      ("Session " <> id <> " could not be recovered and must be closed before preparing it again.")
      false

abbrev pub no_repository : String → Failure
no_repository key =
    thrown ("No local repository path is configured for project key " <> key <> ".") false
