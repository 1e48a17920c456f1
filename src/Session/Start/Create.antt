-- ===== src/Session/Start/Create.antt =====
-- `createSession` of apps/api/src/sessions/sessions.service.ts: what it writes in its transaction,
-- and the command that it then routes to the agent. The identifiers that the database and
-- `randomUUID` make are arguments.
use Prim.Native.String.{◌++◌}
use pair_dock.Prelude.{
  String, Bool, Option, none, some, List, [], ◌∷◌, ◌==◌, if◌then◌else◌, keep, map, Result, ok, err,
  ◌>>=◌,
}
use pair_dock.Domain.{UserKind, developer, pm, Identity, Project, ProjectMembership, SessionStatus}
use pair_dock.Domain.Status.{created}
use pair_dock.Agents.Registry.{Registry}
use pair_dock.Agents.Binding.{is_connected}
use pair_dock.Agents.Capabilities.{
  SessionExecutionSelection, SelectionError, resolve_session_selection,
}
use pair_dock.Session.Start.{SessionStartSource, StartError, StartData, assert_can_start}

pub data CreateError : Type 0 where
  refused : StartError → CreateError
  bad_selection : SelectionError → CreateError

-- The row that `sessions.create` is given.
pub record NewSession : Type 0 where
  pub project_id : String
  pub created_by_user_id : String
  pub status : SessionStatus
  pub model_id : String
  pub reasoning_effort : String
  pub branch_name : String

pub record NewMember : Type 0 where
  pub user_id : String
  pub role : String

-- The payload of `session.prepare`.
pub record PrepareCommand : Type 0 where
  pub session_id : String
  pub project_key : String
  pub branch_name : String
  pub base_branch : String
  pub model_id : String
  pub reasoning_effort : String

pub record CreatedSession : Type 0 where
  pub session : NewSession
  pub members : List NewMember
  pub prepare : Option PrepareCommand

abbrev pub start_error {ℓ} : {A : Type ℓ} → Result StartError A → Result CreateError A
start_error (ok a) = ok a
start_error (err e) = err (refused e)

abbrev pub selection_error {ℓ} : {A : Type ℓ} → Result SelectionError A → Result CreateError A
selection_error (ok a) = ok a
selection_error (err e) = err (bad_selection e)

abbrev pub is_pm_member : ProjectMembership → Bool
is_pm_member m = m.role == "pm"

abbrev pub as_pm : ProjectMembership → NewMember
as_pm m = record { user_id = m.user_id; role = "pm" }

-- `sessionMembers`.
abbrev pub session_members : UserKind → Project → Identity → List ProjectMembership → List NewMember
session_members pm p user members =
    record { user_id = p.owner_user_id; role = "developer" }
    ∷ record { user_id = user.id; role = "pm" }
    ∷ []
session_members developer p user members =
    record { user_id = user.id; role = "developer" } ∷ map as_pm (keep is_pm_member members)

-- `buildSessionPrepareCommand`, for a session that has its branch.
abbrev pub prepare_command : String → NewSession → Project → PrepareCommand
prepare_command session_id s p = record {
  session_id = session_id;
  project_key = p.agent_project_key;
  branch_name = s.branch_name;
  base_branch = p.default_branch;
  model_id = s.model_id;
  reasoning_effort = s.reasoning_effort;
}

abbrev pub new_session : String → Project → Identity → SessionExecutionSelection → NewSession
new_session suffix p user selection = record {
  project_id = p.id;
  created_by_user_id = user.id;
  status = created;
  model_id = selection.model_id;
  reasoning_effort = selection.reasoning_effort;
  branch_name = "pairdock/session-" ++ suffix;
}

abbrev pub default_selection : Project → SessionExecutionSelection
default_selection p = record {
  model_id = p.default_model_id;
  reasoning_effort = p.default_reasoning_effort;
}

module _ (fold : String → String) (data_of : StartData) (r : Registry)
    (list_members : String → List ProjectMembership) (session_id suffix : String) where
  unfoldable pub create_session :
      String → Identity → Option SessionStartSource → Result CreateError CreatedSession
  create_session project_id user source = do
    p ← start_error (assert_can_start fold data_of r project_id user source)
    selection ←
        selection_error (resolve_session_selection p.agent_project_key (default_selection p) r)
    let session = new_session suffix p user selection
    ok (record {
      session = session;
      members = session_members user.kind p user (list_members p.id);
      prepare = if is_connected fold p r then some (prepare_command session_id session p) else none;
    })
