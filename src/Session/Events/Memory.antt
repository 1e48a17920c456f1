-- ===== src/Session/Events/Memory.antt =====
-- An in-memory store that has the laws of the repositories, for the runs on concrete sessions.
use pair_dock.Prelude.{
  String, Option, none, some, List, [], ◌∷◌, ◌++◌, ◌==◌, refl, if◌then◌else◌, eq_refl,
}
use pair_dock.Domain.{Session, SessionStatus, ValidationRun}
use pair_dock.Session.Events.Store.{
  StatusUpdate, ValidationInput, EventInput, Repositories, updated,
}

pub record Tables : Type 0 where
  pub sessions : String → Option Session
  pub validations : String → Option ValidationRun
  pub events : String → List EventInput

abbrev pub update_row : StatusUpdate → Option Session → Option Session
update_row u none = none
update_row u (some s) = some (updated u s)

abbrev pub validation_of : ValidationInput → ValidationRun
validation_of v = record {
  id = "v";
  session_id = v.session_id;
  status = v.status;
  build_status = v.build_status;
  test_status = v.test_status;
  lint_status = v.lint_status;
  preview_status = v.preview_status;
  logs_ref = v.logs_ref;
  created_at = 0;
}

abbrev pub in_memory : Repositories
in_memory = record {
  Db = Tables;
  find_session = λ i db. db.sessions i;
  update_status = λ u db. record db {
    sessions = λ i. if u.id == i then update_row u (db.sessions u.id) else db.sessions i;
  };
  find_latest_validation = λ i db. db.validations i;
  create_validation = λ v db. record db {
    validations = λ i. if v.session_id == i then some (validation_of v) else db.validations i;
  };
  list_events = λ i db. db.events i;
  create_event = λ e db. record db {
    events = λ i. if e.session_id == i then db.events i ++ e ∷ [] else db.events i;
  };
  find-update_status = λ u i db s h. rw h refl;
  find-create_validation = λ v i db. refl;
  find-create_event = λ e i db. refl;
  list-update_status = λ u i db. refl;
  list-create_validation = λ v i db. refl;
  list-create_event = λ e i db. refl;
  latest-update_status = λ u i db. refl;
  latest-create_event = λ e i db. refl;
  latest-create_validation = λ v db. (validation_of v, rw (eq_refl v.session_id) refl, refl);
}

abbrev pub session : SessionStatus → Session
session status = record {
  id = "s1";
  project_id = "p1";
  created_by_user_id = "dev";
  status = status;
  model_id = "gpt";
  reasoning_effort = "medium";
  branch_name = none;
  worktree_ref = none;
  preview_url = none;
  last_error = none;
  created_at = 1;
  closed_at = none;
}

abbrev pub tables : SessionStatus → Tables
tables status = record {
  sessions = λ i. if "s1" == i then some (session status) else none;
  validations = λ i. none;
  events = λ i. [];
}
