-- ===== src/Domain.antt =====
-- packages/domain/src/index.ts: the business types, and the status sets of
-- packages/shared-contracts/src/protocol/common.ts. A `Date` is a number of milliseconds, `null`
-- and an absent field are `none`.
pub mod Status
pub mod Samples
pub use Status.{SessionStatus, ProgressStatus}
use pair_dock.Prelude.{ℕ, String, Bool, Option, List}

pub data UserKind : Type 0 where
  developer pm : UserKind

pub record Identity : Type 0 where
  pub id : String
  pub email : String
  pub display_name : Option String
  pub kind : UserKind

pub record Project : Type 0 where
  pub id : String
  pub owner_user_id : String
  pub source_control_connection_id : String
  pub name : String
  pub description : Option String
  pub repo_full_name : String
  pub default_branch : String
  pub default_model_id : String
  pub default_reasoning_effort : String
  pub pm_can_start_sessions : Bool
  pub agent_project_key : String
  pub created_at : ℕ

pub record ProjectMembership : Type 0 where
  pub id : String
  pub project_id : String
  pub user_id : String
  pub role : String
  pub created_at : ℕ

-- The status is one of 'passed', 'failed', 'warning' and 'skipped'.
pub record ToolReadinessCheck : Type 0 where
  pub key : String
  pub status : String
  pub required : Bool
  pub message : Option String
  pub remediation : Option String

pub record ProjectReadinessSnapshot : Type 0 where
  pub id : String
  pub project_id : String
  pub all_ok : Bool
  pub checks : List ToolReadinessCheck
  pub created_at : ℕ
  pub updated_at : ℕ

pub record Session : Type 0 where
  pub id : String
  pub project_id : String
  pub created_by_user_id : String
  pub status : SessionStatus
  pub model_id : String
  pub reasoning_effort : String
  pub branch_name : Option String
  pub worktree_ref : Option String
  pub preview_url : Option String
  pub last_error : Option String
  pub created_at : ℕ
  pub closed_at : Option ℕ

pub record SessionMember : Type 0 where
  pub id : String
  pub session_id : String
  pub user_id : String
  pub role : String

pub record SourceControlConnection : Type 0 where
  pub id : String
  pub owner_user_id : String
  pub provider_connection_id : String
  pub account_login : String
  pub created_at : ℕ

pub record ValidationRun : Type 0 where
  pub id : String
  pub session_id : String
  pub status : String
  pub build_status : Option String
  pub test_status : Option String
  pub lint_status : Option String
  pub preview_status : Option String
  pub logs_ref : Option String
  pub created_at : ℕ
