-- ===== src/Session/Start/Started.antt =====
-- What a session has that `createSession` has started.
use pair_dock.Prelude.{
  String, Bool, true, ◌&&◌, Option, some, List, [], ◌==◌, ◌≡◌, ◌⊎◌, is_some, any,
}
use pair_dock.Domain.{pm, Identity, Project, ProjectMembership}
use pair_dock.Domain.Status.{created}
use pair_dock.Agents.Registry.{Registry}
use pair_dock.Agents.Binding.{is_connected}
use pair_dock.Agents.Capabilities.{list_models_for_project}
use pair_dock.Agents.Capabilities.Laws.{IsOffered}
use pair_dock.Session.Start.{SessionStartSource, StartData}
use pair_dock.Session.Start.Create.{NewMember, CreatedSession, default_selection}

-- A member with this user and role.
abbrev pub takes_part : String → String → List NewMember → Bool
takes_part user_id role = any (λ m. m.user_id == user_id && m.role == role)

module _ (fold : String → String) (data_of : StartData) (r : Registry)
    (list_members : String → List ProjectMembership) (session_id suffix : String)
    (project_id : String) (user : Identity) (source : Option SessionStartSource)
    (c : CreatedSession) where
  pub record IsStarted : Type 0 where
    pub project : Project
    pub found : data_of.find_project project_id ≡ some project
    pub of_project : c.session.project_id ≡ project.id
    pub of_user : c.session.created_by_user_id ≡ user.id
    pub model : c.session.model_id ≡ project.default_model_id
    pub effort : c.session.reasoning_effort ≡ project.default_reasoning_effort
    pub is_created : c.session.status ≡ created
    pub owner_takes_part : takes_part project.owner_user_id "developer" c.members ≡ true
    pub pm_takes_part : user.kind ≡ pm → takes_part user.id "pm" c.members ≡ true
    pub prepared_iff : is_some c.prepare ≡ is_connected fold project r
    pub pm_prepared : user.kind ≡ pm → is_some c.prepare ≡ true
    pub offered :
        (list_models_for_project project.agent_project_key r ≡ [])
        ⊎ IsOffered project.agent_project_key (default_selection project) r
