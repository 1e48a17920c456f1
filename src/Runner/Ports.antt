-- ===== src/Runner/Ports.antt =====
-- What `SessionRunner` is built from: the ports and the configuration that its constructor takes,
-- and what they are given. Each call changes the world, and answers or throws.
use pair_dock.Prelude.{String, Bool, Option, List, Result, ℕ}
use pair_dock.Prelude.Dict.{Dict}
use pair_dock.Prelude.Decimal.{ℤ}
use pair_dock.Domain.Status.{SessionStatus}
use pair_dock.Session.Start.Create.{PrepareCommand}
use pair_dock.Workspaces.Sandbox.{
  ProjectPreviewConfig, SandboxRef, PreviewTunnelRef, SessionWorkspace,
}

-- What is thrown: an error with its message, or an `AggregateError` over others.
pub data Failure : Type 0 where
  thrown : (message : String) → (retryable : Bool) → Failure
  aggregate : (messages : List String) → (message : String) → Failure

-- `errorMessage`.
abbrev pub error_message : Failure → String
error_message (thrown message _) = message
error_message (aggregate _ message) = message

pub data CloseMode : Type 0 where
  keep_branch delete_local : CloseMode

pub record PreparedWorktree : Type 0 where
  pub repository_path : String
  pub worktree_path : String
  pub branch_name : String

pub record CompanionInput : Type 0 where
  pub preview_config : Option ProjectPreviewConfig
  pub project_key : String
  pub session_id : String

pub record SandboxStartInput : Type 0 where
  pub branch_name : String
  pub model_id : String
  pub preview_config : Option ProjectPreviewConfig
  pub project_key : String
  pub repository_path : String
  pub runtime_owner_id : Option String
  pub session_id : String
  pub worktree_path : String

pub record HealthcheckWaitInput : Type 0 where
  pub interval_ms : Option ℕ
  pub sandbox_ref : SandboxRef
  pub timeout_ms : Option ℕ

pub record PreviewTunnelOpenInput : Type 0 where
  pub local_url : String
  pub preview_config : Option ProjectPreviewConfig
  pub project_key : String
  pub runtime_owner_id : Option String
  pub session_id : String
  pub worktree_path : String

pub record CheckCommandInput : Type 0 where
  pub command : String
  pub session_id : String
  pub worktree_path : String

pub record CheckCommandResult : Type 0 where
  pub exit_code : ℤ
  pub logs : String

-- The hooks of `prepare` are a port too. A runner without a preview companion has ports that
-- answer at once, with no preview configuration.
pub record RunnerPorts : Type 1 where
  pub World : Type 0
  pub on_progress : String → SessionStatus → World → World × Result Failure (Unit {0})
  pub prepare_worktree : PrepareCommand → String → World → World × Result Failure PreparedWorktree
  pub validate_prepared : SessionWorkspace → String → World → World × Result Failure (Unit {0})
  pub cleanup_worktree : SessionWorkspace → CloseMode → World → World × Result Failure (Unit {0})
  pub push_worktree_branch : SessionWorkspace → String → World → World × Result Failure String
  pub run_host_command : CheckCommandInput → World → World × Result Failure CheckCommandResult
  pub prepare_companion :
      CompanionInput → World → World × Result Failure (Option ProjectPreviewConfig)
  pub start_companion : String → String → World → World × Result Failure (Unit {0})
  pub stop_companion : Bool → String → World → World × Result Failure (Unit {0})
  pub start_sandbox : SandboxStartInput → World → World × Result Failure SandboxRef
  pub stop_sandbox :
      SandboxRef → Option ProjectPreviewConfig → World → World × Result Failure (Unit {0})
  pub wait_until_ready : HealthcheckWaitInput → World → World × Result Failure String
  pub open_tunnel : PreviewTunnelOpenInput → World → World × Result Failure PreviewTunnelRef
  pub close_tunnel :
      PreviewTunnelRef → Option ProjectPreviewConfig → World → World × Result Failure (Unit {0})
  pub save : List SessionWorkspace → World → World × Result Failure (Unit {0})
  pub load : World → World × Result Failure (List SessionWorkspace)
  pub reconcile_orphans : String → World → World × Result Failure (Unit {0})
  pub project_paths : Dict String
  pub preview_configs : Dict ProjectPreviewConfig
  pub runtime_owner_id : Option String
