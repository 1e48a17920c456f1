-- ===== src/Domain/Status.antt =====
-- The status of a session: packages/domain/src/index.ts and the sets of statuses in
-- packages/shared-contracts/src/protocol/common.ts and apps/api/src/sessions.
use pair_dock.Prelude.{ℕ, Bool, false, Option, none, some, eqb, List, [], ◌∷◌, ◌||◌}

pub data SessionStatus : Type 0 where
  created : SessionStatus
  agent_connecting : SessionStatus
  worktree_creating : SessionStatus
  docker_starting : SessionStatus
  preview_starting : SessionStatus
  ready : SessionStatus
  agent_running : SessionStatus
  checks_running : SessionStatus
  awaiting_pm_validation : SessionStatus
  review_request_creating : SessionStatus
  review_request_created : SessionStatus
  closing : SessionStatus
  closed : SessionStatus
  failed : SessionStatus

-- `ProgressStatus`: the statuses that a progress event may announce.
pub data ProgressStatus : Type 0 where
  connecting : ProgressStatus
  creating_worktree : ProgressStatus
  starting_docker : ProgressStatus
  starting_preview : ProgressStatus
  running_agent : ProgressStatus
  running_checks : ProgressStatus
  awaiting_validation : ProgressStatus
  creating_review_request : ProgressStatus
  created_review_request : ProgressStatus

-- A progress status is a status.
abbrev pub to_status : ProgressStatus → SessionStatus
to_status connecting = agent_connecting
to_status creating_worktree = worktree_creating
to_status starting_docker = docker_starting
to_status starting_preview = preview_starting
to_status running_agent = agent_running
to_status running_checks = checks_running
to_status awaiting_validation = awaiting_pm_validation
to_status creating_review_request = review_request_creating
to_status created_review_request = review_request_created

-- `isProgressStatus` and `isLifecycleProgressStatus`, with the narrowed value.
abbrev pub progress_status? : SessionStatus → Option ProgressStatus
progress_status? agent_connecting = some connecting
progress_status? worktree_creating = some creating_worktree
progress_status? docker_starting = some starting_docker
progress_status? preview_starting = some starting_preview
progress_status? agent_running = some running_agent
progress_status? checks_running = some running_checks
progress_status? awaiting_pm_validation = some awaiting_validation
progress_status? review_request_creating = some creating_review_request
progress_status? review_request_created = some created_review_request
progress_status? _ = none

-- The place of a status in the enumeration, by which two statuses are compared.
abbrev pub index : SessionStatus → ℕ
index created = 0
index agent_connecting = 1
index worktree_creating = 2
index docker_starting = 3
index preview_starting = 4
index ready = 5
index agent_running = 6
index checks_running = 7
index awaiting_pm_validation = 8
index review_request_creating = 9
index review_request_created = 10
index closing = 11
index closed = 12
index failed = 13

-- `left === right` on statuses.
abbrev pub same_status : SessionStatus → SessionStatus → Bool
same_status s t = eqb (index s) (index t)

-- `statuses.includes(status)`, and `Set.has`.
abbrev pub has_status : List SessionStatus → SessionStatus → Bool
has_status [] s = false
has_status (t ∷ ts) s = same_status t s || has_status ts s

-- `isPromptableSessionStatus`.
abbrev pub is_promptable : SessionStatus → Bool
is_promptable = has_status (ready ∷ awaiting_pm_validation ∷ failed ∷ [])
