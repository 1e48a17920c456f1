-- ===== src/Domain/Samples.antt =====
-- A project and a session, for the tests.
use pair_dock.Prelude.{true, none}
use pair_dock.Domain.{Project, Session, SessionStatus}

abbrev pub shop : Project
shop = record {
  id = "p1";
  owner_user_id = "ada";
  source_control_connection_id = "c1";
  name = "Shop";
  description = none;
  repo_full_name = "ada/shop";
  default_branch = "main";
  default_model_id = "gpt";
  default_reasoning_effort = "medium";
  pm_can_start_sessions = true;
  agent_project_key = "shop";
  created_at = 1;
}

abbrev pub session_in : SessionStatus → Session
session_in status = record {
  id = "s1";
  project_id = "p1";
  created_by_user_id = "ada";
  status = status;
  model_id = "gpt";
  reasoning_effort = "medium";
  branch_name = none;
  worktree_ref = none;
  preview_url = none;
  last_error = none;
  created_at = 1;
  closed_at = none;
}
