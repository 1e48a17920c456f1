-- ===== src/Workspaces/Sandbox.antt =====
-- What a workspace refers to: packages/local-agent/src/docker/sandbox.port.ts, the reference of
-- packages/local-agent/src/tunnel/preview-tunnel.port.ts and `PreparedWorktree` of
-- packages/local-agent/src/git/worktree.service.ts, whose fields are the first three of a workspace.
use pair_dock.Prelude.{ℕ, String, Option, List}
use pair_dock.Prelude.Dict.{Dict}

pub data PreviewRuntime : Type 0 where
  host docker : PreviewRuntime

pub data SandboxNetwork : Type 0 where
  isolated host_services : SandboxNetwork

pub record CacheMount : Type 0 where
  pub volume_name : String
  pub target : String

pub record DependencyCache : Type 0 where
  pub cache_key : String
  pub mounts : List CacheMount

pub record SandboxConfig : Type 0 where
  pub start_command : String
  pub stop_command : Option String
  pub healthcheck_url : String
  pub image : Option String
  pub workdir : Option String
  pub network : Option SandboxNetwork
  pub env : Option (Dict String)
  pub ports : Option (List String)

-- The one provider is 'cloudflare'.
pub record TunnelConfig : Type 0 where
  pub provider : Option String
  pub public_url : Option String
  pub image : Option String
  pub startup_timeout_ms : Option ℕ

pub record ProjectPreviewConfig : Type 0 where
  pub runtime : Option PreviewRuntime
  pub setup_command : Option String
  pub prepare_command : Option String
  pub dependency_cache : Option DependencyCache
  pub sandbox : Option SandboxConfig
  pub tunnel : Option TunnelConfig
  pub healthcheck_timeout_ms : Option ℕ
  pub healthcheck_interval_ms : Option ℕ

pub record SandboxRef : Type 0 where
  pub id : String
  pub session_id : String
  pub healthcheck_url : String
  pub preview_config : Option ProjectPreviewConfig
  pub metadata : Option (Dict String)

pub record PreviewTunnelRef : Type 0 where
  pub id : String
  pub session_id : String
  pub public_url : String
  pub metadata : Option (Dict String)

pub record SessionWorkspace : Type 0 where
  pub repository_path : String
  pub worktree_path : String
  pub branch_name : String
  pub session_id : String
  pub project_key : String
  pub model_id : Option String
  pub sandbox_ref : Option SandboxRef
  pub tunnel_ref : Option PreviewTunnelRef
  pub preview_url : Option String
