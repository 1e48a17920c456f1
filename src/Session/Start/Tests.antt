-- ===== src/Session/Start/Tests.antt =====
-- A shared project whose agent is connected, and the sessions that its owner and a PM start.
use pair_dock.Prelude.{String, true, none, some, [], ◌==◌, ◌≡◌, ◌↔◌, ◌⊎◌, if◌then◌else◌, ok}
use pair_dock.Domain.{UserKind, pm, Identity, Project, ProjectMembership}
use pair_dock.Agents.Registry.Tests.{one_agent, one_agent-IsConsistent}
use pair_dock.Session.Start.{StartData, assert_can_start}
use pair_dock.Session.Start.Create.{
  CreatedSession, new_session, default_selection, session_members, prepare_command,
}
use pair_dock.Session.Start.Laws.{DeveloperMay, PmMay, assert_can_start_iff}

abbrev shop : Project
shop = record {
  id = "p1";
  owner_user_id = "dev";
  source_control_connection_id = "c1";
  name = "Shop";
  description = none;
  repo_full_name = "acme/app";
  default_branch = "main";
  default_model_id = "gpt";
  default_reasoning_effort = "medium";
  pm_can_start_sessions = true;
  agent_project_key = "app";
  created_at = 0;
}

abbrev membership : ProjectMembership
membership = record { id = "m1"; project_id = "p1"; user_id = "pm"; role = "pm"; created_at = 0 }

abbrev data_of : StartData
data_of = record {
  find_project = λ id. if id == "p1" then some shop else none;
  find_membership = λ p u. if u == "pm" then some membership else none;
  find_readiness = λ p. some (record {
    id = "r1";
    project_id = "p1";
    all_ok = true;
    checks = [];
    created_at = 0;
    updated_at = 0;
  });
}

abbrev user : String → UserKind → Identity
user id kind = record { id = id; email = "a@b.c"; display_name = none; kind = kind }

abbrev fold : String → String
fold s = s

abbrev started : CreatedSession
started =
    let session = new_session "1a2b" shop (user "pm" pm) (default_selection shop) in
    record {
      session = session;
      members = session_members pm shop (user "pm" pm) [];
      prepare = some (prepare_command "s1" session shop);
    }

assert_can_start_iff_example :
    (assert_can_start fold data_of one_agent "p1" (user "pm" pm) none ≡ ok shop) ↔ (
      (data_of.find_project "p1" ≡ some shop)
      × (DeveloperMay fold data_of one_agent shop (user "pm" pm) none
          ⊎ PmMay fold data_of one_agent shop (user "pm" pm) none))
assert_can_start_iff_example =
    assert_can_start_iff fold data_of one_agent "p1" (user "pm" pm) none shop one_agent-IsConsistent
