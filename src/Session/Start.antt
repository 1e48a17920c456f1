-- ===== src/Session/Start.antt =====
-- Who may start a session: apps/api/src/sessions/session-start-policy.ts, and `createSession` of
-- apps/api/src/sessions/sessions.service.ts.
pub mod Create
pub mod Laws
pub mod Started
mod Tests
use pair_dock.Prelude.{
  String, Bool, true, false, not, ◌&&◌, Option, none, some, List, [], ◌∷◌, ◌==◌, if◌then◌else◌,
  find, or_else, Result, ok, err, guard, require, ◌>>=◌, ◌>>◌,
}
use pair_dock.Domain.{
  UserKind, developer, pm, Identity, Project, ProjectMembership, ToolReadinessCheck,
  ProjectReadinessSnapshot,
}
use pair_dock.Agents.Registry.{Registry}
use pair_dock.Agents.Binding.{BindingError, assert_compatible_if_connected, assert_connected}

pub data SessionStartSource : Type 0 where
  from_developer from_pm : SessionStartSource

pub data StartError : Type 0 where
  project_not_found developer_flow_required not_owner : StartError
  readiness_failed : (message : String) → StartError
  pm_flow_required not_member pm_disabled not_ready : StartError
  binding : BindingError → StartError

-- What the policy reads from the repositories.
pub record StartData : Type 0 where
  pub find_project : String → Option Project
  pub find_membership : (project_id user_id : String) → Option ProjectMembership
  pub find_readiness : (project_id : String) → Option ProjectReadinessSnapshot

-- An exception of the agent binding passes through.
abbrev pub through : Result BindingError (Unit {0}) → Result StartError (Unit {0})
through (ok u) = ok u
through (err e) = err (binding e)

abbrev pub default_source : UserKind → SessionStartSource
default_source pm = from_pm
default_source developer = from_developer

abbrev pub is_from_developer : SessionStartSource → Bool
is_from_developer from_developer = true
is_from_developer from_pm = false

abbrev is_failing : ToolReadinessCheck → Bool
is_failing check = check.required && check.status == "failed"

abbrev message_of : Option ToolReadinessCheck → Option String
message_of none = none
message_of (some check) = check.message

-- `resolveDeveloperReadinessFailure`.
abbrev pub readiness_failure : List ToolReadinessCheck → String
readiness_failure checks =
    or_else (message_of (find is_failing checks))
      "Required developer readiness checks must pass before starting a session."

-- A developer's session starts without a readiness snapshot, but not against a failing one.
abbrev pub check_developer_readiness :
    Option ProjectReadinessSnapshot → Result StartError (Unit {0})
check_developer_readiness none = ok tt
check_developer_readiness (some r) = guard r.all_ok (readiness_failed (readiness_failure r.checks))

abbrev pub is_ready : Option ProjectReadinessSnapshot → Bool
is_ready none = false
is_ready (some r) = r.all_ok

module _ (fold : String → String) (data_of : StartData) (r : Registry) where
  unfoldable pub assert_developer_can_start :
      Project → Identity → SessionStartSource → Result StartError Project
  assert_developer_can_start p user source = do
    guard (is_from_developer source) developer_flow_required
    guard (p.owner_user_id == user.id) not_owner
    through (assert_compatible_if_connected fold p r)
    check_developer_readiness (data_of.find_readiness p.id)
    ok p

  unfoldable pub assert_pm_can_start :
      Project → Identity → SessionStartSource → Result StartError Project
  assert_pm_can_start p user source = do
    guard (not (is_from_developer source)) pm_flow_required
    member ← require (data_of.find_membership p.id user.id) not_member
    guard p.pm_can_start_sessions pm_disabled
    through (assert_connected fold p r)
    guard (is_ready (data_of.find_readiness p.id)) not_ready
    ok p

  abbrev pub by_kind :
      UserKind → Project → Identity → SessionStartSource → Result StartError Project
  by_kind developer p user source = assert_developer_can_start p user source
  by_kind pm p user source = assert_pm_can_start p user source

  -- `assertCanStart`.
  unfoldable pub assert_can_start :
      String → Identity → Option SessionStartSource → Result StartError Project
  unfolding assert_developer_can_start assert_pm_can_start
  assert_can_start project_id user requested = do
    p ← require (data_of.find_project project_id) project_not_found
    by_kind user.kind p user (or_else requested (default_source user.kind))
