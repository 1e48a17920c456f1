-- ===== src/Agents/Binding.antt =====
-- apps/api/src/agent-gateway/agent-project-binding.service.ts. `fold` stands for
-- `value.trim().toLocaleLowerCase('en-US')`.
pub mod Laws
mod Tests
use pair_dock.Prelude.{
  String, Bool, true, false, not, ◌&&◌, ◌||◌, Option, none, some, List, [], ◌∷◌, ◌==◌,
  if◌then◌else◌, has_text, find, Result, ok, err, guard, ◌>>=◌, ◌>>◌,
}
use pair_dock.Domain.{Project}
use pair_dock.Agents.Registry.{
  PublishedProject, ConnectedAgentSnapshot, Registry, list_snapshots, find_socket_id,
}

pub data BindingError : Type 0 where
  agent_offline : (project_key : String) → BindingError
  different_repository : BindingError
  other_developer : BindingError

-- `{ ...project, ownerUserId: snapshot.ownerUserId }`.
pub record Binding : Type 0 where
  pub project : PublishedProject
  pub owner_user_id : Option String

-- The loop of `findPublishedProject`.
unfoldable pub find_published : String → List ConnectedAgentSnapshot → Option Binding
find_published key [] = none
find_published key (snapshot ∷ snapshots) =
    let rest = find_published key snapshots in
    elim (find (λ candidate. candidate.key == key) snapshot.projects) [
      | some project ↦ some (record { project = project; owner_user_id = snapshot.owner_user_id })
      | none ↦ rest
    ]

unfoldable pub find_published_project : String → Registry → Option Binding
unfolding find_published list_snapshots
find_published_project key r = find_published key (list_snapshots r)

-- `!published.ownerUserId || published.ownerUserId === project.ownerUserId`.
abbrev pub owner_agrees : Option String → String → Bool
owner_agrees none owner = true
owner_agrees (some published) owner = not (has_text (some published)) || published == owner

module _ (fold : String → String) where
  -- `repositoriesMatch`.
  abbrev pub repositories_match : String → String → Bool
  repositories_match left right = fold left == fold right

  unfoldable pub matches_project : Binding → Project → Bool
  matches_project b p =
      repositories_match b.project.repo_full_name p.repo_full_name
      && owner_agrees b.owner_user_id p.owner_user_id

  unfoldable pub is_connected : Project → Registry → Bool
  unfolding find_published_project matches_project
  is_connected p r = elim (find_published_project p.agent_project_key r) [
    | none ↦ false
    | some b ↦ matches_project b p
  ]

  unfoldable pub assert_published_repository_matches :
      Project → Registry → Result BindingError (Unit {0})
  unfolding find_published_project matches_project
  assert_published_repository_matches p r = elim (find_published_project p.agent_project_key r) [
    | none ↦ err different_repository
    | some b ↦ guard (matches_project b p) different_repository
  ]

  unfoldable pub assert_connected : Project → Registry → Result BindingError (Unit {0})
  assert_connected p r = do
    guard (has_text (find_socket_id p.agent_project_key r)) (agent_offline p.agent_project_key)
    assert_published_repository_matches p r

  unfoldable pub assert_compatible_if_connected :
      Project → Registry → Result BindingError (Unit {0})
  assert_compatible_if_connected p r =
      if has_text (find_socket_id p.agent_project_key r)
      then assert_published_repository_matches p r
      else ok tt

unfoldable pub assert_ownership_if_connected : Project → Registry → Result BindingError (Unit {0})
unfolding find_published_project
assert_ownership_if_connected p r = elim (find_published_project p.agent_project_key r) [
  | none ↦ ok tt
  | some b ↦ guard (owner_agrees b.owner_user_id p.owner_user_id) other_developer
]
