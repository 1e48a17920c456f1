-- ===== src/Session/Events.antt =====
-- apps/api/src/sessions/session-events.service.ts over the repositories that it uses.
pub mod Store
pub mod Apply
pub mod Memory
use pair_dock.Prelude.{
  ℕ, String, Bool, true, false, ◌==◌, Option, none, some, Result, ok, err, ◌>>=◌, if◌then◌else◌,
}
use pair_dock.Prelude.Decimal.{is_zero}
use pair_dock.Domain.{Session, ValidationRun}
use pair_dock.Domain.Status.{failed, awaiting_pm_validation}
use pair_dock.Protocol.Checks.{
  CheckStatus, passed, skipped, ChecksResult, ChecksFailureSummary, summarize_checks_failure,
}
use pair_dock.Session.Machine.{
  ResumeStatus, to_ready, to_awaiting, to_failed, SessionAgentEvent, done, TransitionError,
  is_no_change, apply_agent_event,
}

-- `SessionEvent`.
pub data SessionEvent : Type 0 where
  agent : SessionAgentEvent → SessionEvent
  checks_result : ChecksResult → SessionEvent

-- The `resumeStatus` that the latest validation run calls for.
abbrev pub resume_status : Option ValidationRun → ResumeStatus
resume_status none = to_ready
resume_status (some validation) =
    if validation.status == "passed"
    then to_awaiting
    else if validation.status == "failed"
    then to_failed
    else to_ready

-- A prompt that ended well without changes is given the status to resume in.
unfoldable pub resolve_event : Option ValidationRun → SessionAgentEvent → SessionAgentEvent
resolve_event latest (done code changes resume) =
    if is_zero code
    then (if is_no_change changes
        then done code changes (some (resume_status latest))
        else done code changes resume)
    else done code changes resume
resolve_event latest e = e

module _ (useful_line : String → Option String) where
  -- The session behind a checks result.
  unfoldable pub settle_checks : Session → ChecksResult → Session
  settle_checks s payload = elim (summarize_checks_failure useful_line payload) [
    | none ↦ record s { status = awaiting_pm_validation; last_error = none }
    | some failure ↦ record s { status = failed; last_error = some failure.message }
  ]

  -- `nextSession`, from the stored session and its latest validation run.
  unfoldable pub next_session :
      ℕ → Option ValidationRun → Session → SessionEvent → Result TransitionError Session
  unfolding settle_checks resolve_event
  next_session now latest s (checks_result payload) = ok (settle_checks s payload)
  next_session now latest s (agent e) = apply_agent_event now s (resolve_event latest e)
