-- ===== src/Session/Machine/Effects.antt =====
-- What an accepted event changes in a session besides its status, and what it leaves alone.
use pair_dock.Prelude.{ℕ, Bool, true, false, not, none, some, ◌≡◌, ◌≢◌, ◌↔◌, ok, arith}
use pair_dock.Prelude.Decimal.{is_zero}
use pair_dock.Domain.{Session}
use pair_dock.Domain.Status.{ready, closed, failed}
use pair_dock.Session.Machine.{
  SessionAgentEvent, progress, became_ready, recovered, done, session_closed, error,
  apply_agent_event, close_session,
}

-- What holds of a stored session between two events.
pub record IsSound (s : Session) : Type 0 where
  pub failed_explained : s.status ≡ failed → s.last_error ≢ none
  pub ready_clean : s.status ≡ ready → s.last_error ≡ none
  pub closed_dated : s.status ≡ closed → s.closed_at ≢ none

-- An accepted event and a close keep three facts: a failed session says why, a ready one reports
-- no error, and a closed one has a closing date.
pub apply_agent_event-IsSound :
    (now : ℕ) (s : Session) (e : SessionAgentEvent) (t : Session)
    → IsSound s
    → apply_agent_event now s e ≡ ok t
    → IsSound t × IsSound (close_session t now)
unfolding apply_agent_event close_session
apply_agent_event-IsSound now s e t v h = ground arith

-- The fields that no event touches.
pub record SameIdentity (s t : Session) : Type 0 where
  pub id : s.id ≡ t.id
  pub project_id : s.project_id ≡ t.project_id
  pub created_by_user_id : s.created_by_user_id ≡ t.created_by_user_id
  pub model_id : s.model_id ≡ t.model_id
  pub reasoning_effort : s.reasoning_effort ≡ t.reasoning_effort
  pub branch_name : s.branch_name ≡ t.branch_name
  pub worktree_ref : s.worktree_ref ≡ t.worktree_ref
  pub created_at : s.created_at ≡ t.created_at

-- No event changes a session's id, project, creator, model, reasoning effort, branch, worktree or
-- creation date, and none moves or clears a closing date once it is set.
pub apply_agent_event-SameIdentity :
    (now : ℕ) (s : Session) (e : SessionAgentEvent) (t : Session)
    → apply_agent_event now s e ≡ ok t
    → SameIdentity s t × ((at : ℕ) → s.closed_at ≡ some at → t.closed_at ≡ some at)
unfolding apply_agent_event
apply_agent_event-SameIdentity now s (progress p m) t h = ground arith
apply_agent_event-SameIdentity now s (became_ready url) t h = ground arith
apply_agent_event-SameIdentity now s (recovered url) t h = ground arith
apply_agent_event-SameIdentity now s (done code changes resume) t h = ground arith
apply_agent_event-SameIdentity now s (session_closed cleaned) t h = ground arith
apply_agent_event-SameIdentity now s (error m r) t h = ground arith

-- An agent's report that something went wrong.
abbrev pub is_failure : SessionAgentEvent → Bool
is_failure (error m r) = true
is_failure (done code changes resume) = not (is_zero code)
is_failure _ = false

-- A closed session stays closed under every accepted event but a failure report, and a failure
-- report makes it a failed one.
pub apply_agent_event_closed :
    (now : ℕ) (s : Session) (e : SessionAgentEvent) (t : Session)
    → s.status ≡ closed
    → apply_agent_event now s e ≡ ok t
    → ((is_failure e ≡ true) ↔ (t.status ≡ failed)) × ((is_failure e ≡ false) ↔ (t.status ≡ closed))
unfolding apply_agent_event
apply_agent_event_closed now s e t c h = ground arith
