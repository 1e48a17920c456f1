-- ===== src/Session/Machine.antt =====
-- apps/api/src/sessions/session-state-machine.ts. `throw` is `err`; a thrown message is the
-- exception with the values that its template names. `new Date()` is an argument, `now`.
pub mod Diagram
pub mod Effects
pub mod Traces
mod Tests
use Prim.Native.String.{◌++◌}
use pair_dock.Prelude.{
  ℕ, String, Bool, true, false, not, ◌&&◌, Option, none, some, List, [], ◌∷◌, if◌then◌else◌,
  or_else, Result, ok, err, guard, ◌>>=◌, ◌>>◌,
}
use pair_dock.Prelude.Decimal.{ℤ, is_zero, to_string}
use pair_dock.Domain.{Session, SessionStatus, ProgressStatus}
use pair_dock.Domain.Status.{
  created, agent_connecting, worktree_creating, docker_starting, preview_starting, ready,
  agent_running, checks_running, awaiting_pm_validation, review_request_creating,
  review_request_created, closing, closed, failed, to_status, same_status, has_status,
}

-- `NoChangesResumeStatus`.
pub data ResumeStatus : Type 0 where
  to_ready to_awaiting to_failed : ResumeStatus

abbrev pub resumed : ResumeStatus → SessionStatus
resumed to_ready = ready
resumed to_awaiting = awaiting_pm_validation
resumed to_failed = failed

-- `SessionAgentEvent`.
pub data SessionAgentEvent : Type 0 where
  progress : ProgressStatus → (message : Option String) → SessionAgentEvent
  became_ready : (preview_url : String) → SessionAgentEvent
  recovered : (preview_url : String) → SessionAgentEvent
  done :
      (exit_code : ℤ)
      → (changes_detected : Option Bool) → (resume_status : Option ResumeStatus) → SessionAgentEvent
  session_closed : (cleaned : Bool) → SessionAgentEvent
  error : (message : String) → (retryable : Bool) → SessionAgentEvent

-- `InvalidSessionTransitionError`.
pub data TransitionError : Type 0 where
  no_transition : (current next : SessionStatus) → TransitionError
  no_resume : (current : SessionStatus) → TransitionError

-- `allowedProgressTransitions`; a status that is no key of the map has no successor there.
abbrev pub allowed_progress_transitions : SessionStatus → List SessionStatus
allowed_progress_transitions created = agent_connecting ∷ []
allowed_progress_transitions agent_connecting = worktree_creating ∷ []
allowed_progress_transitions worktree_creating = docker_starting ∷ []
allowed_progress_transitions docker_starting = preview_starting ∷ []
allowed_progress_transitions ready = agent_running ∷ []
allowed_progress_transitions agent_running = checks_running ∷ []
allowed_progress_transitions checks_running = agent_running ∷ awaiting_pm_validation ∷ []
allowed_progress_transitions awaiting_pm_validation = agent_running ∷ review_request_creating ∷ []
allowed_progress_transitions failed = agent_running ∷ []
allowed_progress_transitions review_request_creating = review_request_created ∷ []
allowed_progress_transitions _ = []

abbrev interrupted_operation_statuses : List SessionStatus
interrupted_operation_statuses = agent_running ∷ checks_running ∷ review_request_creating ∷ []

abbrev interrupted_preparation_statuses : List SessionStatus
interrupted_preparation_statuses =
    created ∷ agent_connecting ∷ worktree_creating ∷ docker_starting ∷ preview_starting ∷ []

-- `assertTransition`, with its early returns in their order.
assert_transition : SessionStatus → SessionStatus → Result TransitionError (Unit {0})
assert_transition current next =
    if same_status next ready
    then guard (same_status current preview_starting) (no_transition current ready)
    else if same_status next checks_running && same_status current agent_running
    then ok tt
    else if same_status next closed && same_status current closing
    then ok tt
    else guard (has_status (allowed_progress_transitions current) next) (no_transition current next)

apply_progress : Session → SessionStatus → Option String → Result TransitionError Session
unfolding assert_transition
apply_progress s next message = do
  assert_transition s.status next
  ok (record s { status = next; last_error = message })

abbrev pub is_no_change : Option Bool → Bool
is_no_change (some false) = true
is_no_change _ = false

abbrev resume_or_ready : Option ResumeStatus → SessionStatus
resume_or_ready none = ready
resume_or_ready (some r) = resumed r

abbrev pub resume_error : Option ResumeStatus → Option String
resume_error (some to_failed) =
    some "The latest validation remains failed because this prompt made no file changes."
resume_error _ = none

-- `Agent command failed with exit code ${exitCode}.`
abbrev pub exit_error : ℤ → String
exit_error code = "Agent command failed with exit code " ++ to_string code ++ "."

-- The case `session.recovered`.
pub recover : Session → String → Session
recover s url =
    if has_status interrupted_preparation_statuses s.status
    then record s { status = ready; preview_url = some url; last_error = none }
    else if has_status interrupted_operation_statuses s.status
    then record s {
      status = failed;
      preview_url = some url;
      last_error =
          some "The local agent restarted during an active operation. Send a new message to retry.";
    }
    else record s { preview_url = some url }

-- The case `agent.done`.
finish_prompt : Session → ℤ → Option Bool → Option ResumeStatus → Result TransitionError Session
unfolding assert_transition
finish_prompt s exit_code changes resume =
    if is_zero exit_code
    then (if is_no_change changes
        then (do
          guard (same_status s.status agent_running) (no_resume s.status)
          ok (record s { status = resume_or_ready resume; last_error = resume_error resume }))
        else (do
          assert_transition s.status checks_running
          ok (record s { status = checks_running; last_error = none })))
    else ok (record s { status = failed; last_error = some (exit_error exit_code) })

-- `applyAgentEvent`.
unfoldable pub apply_agent_event : ℕ → Session → SessionAgentEvent → Result TransitionError Session
unfolding apply_progress recover finish_prompt
apply_agent_event now s (progress next message) = apply_progress s (to_status next) message
apply_agent_event now s (became_ready url) = do
  assert_transition s.status ready
  ok (record s { status = ready; preview_url = some url; last_error = none })
apply_agent_event now s (recovered url) = ok (recover s url)
apply_agent_event now s (done code changes resume) = finish_prompt s code changes resume
apply_agent_event now s (session_closed cleaned) =
    ok (record s { status = closed; closed_at = some (or_else s.closed_at now) })
apply_agent_event now s (error message retryable) =
    ok (record s { status = failed; last_error = some message })

-- `closeSession`.
unfoldable pub close_session : Session → ℕ → Session
close_session s at =
    if same_status s.status closed then s else record s { status = closed; closed_at = some at }
