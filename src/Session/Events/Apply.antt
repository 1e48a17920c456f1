-- ===== src/Session/Events/Apply.antt =====
-- `SessionEventsService.apply` over the repositories, as one transaction.
pub mod Laws
mod Tests
use pair_dock.Prelude.{ℕ, String, Option, none, some, Result, ok, err, ◌>>=◌}
use pair_dock.Domain.{Session}
use pair_dock.Protocol.Checks.{
  CheckStatus, passed, failed, skipped, ChecksResult, summarize_checks_failure,
}
use pair_dock.Session.Machine.{TransitionError}
use pair_dock.Session.Events.{SessionEvent, agent, checks_result, next_session}
use pair_dock.Session.Events.Store.{
  StatusUpdate, ValidationInput, EventInput, Repositories, updated, execute,
}

abbrev pub status_text : CheckStatus → String
status_text passed = "passed"
status_text failed = "failed"
status_text skipped = "skipped"

abbrev pub verdict {ℓ} : {A : Type ℓ} → Option A → String
verdict none = "passed"
verdict (some _) = "failed"

module _ (useful_line : String → Option String) where
  -- The row that `checks.result` adds to the validation runs.
  abbrev pub validation_input : String → ChecksResult → ValidationInput
  validation_input id p = record {
    session_id = id;
    status = verdict (summarize_checks_failure useful_line p);
    build_status = some (status_text p.build.status);
    test_status = some (status_text p.tests.status);
    lint_status = some (status_text p.lint.status);
    preview_status = some (status_text p.preview.status);
    logs_ref = none;
  }

  module _ (R : Repositories) where
    open R use {
      Db, find_session, update_status, find_latest_validation, create_validation, create_event,
    }

    abbrev pub record_checks : String → SessionEvent → Db → Db
    record_checks id (checks_result p) db = create_validation (validation_input id p) db
    record_checks id (agent _) db = db

    abbrev pub status_update : String → Session → StatusUpdate
    status_update id next = record {
      id = id;
      status = next.status;
      last_error = some next.last_error;
      preview_url = some next.preview_url;
      closed_at = some next.closed_at;
    }

    -- The work of the transaction, for a session that is stored.
    unfoldable pub apply_stored :
        ℕ
        → String
        → SessionEvent
        → Option String
        → Session
        → Db
        → Result TransitionError (Option Session × Db)
    apply_stored now id event agent_id session db = do
      let latest = find_latest_validation id db
      next ← next_session useful_line now latest session event
      let entry : EventInput = record { session_id = id; agent_id = agent_id; event = event }
      let logged = create_event entry (record_checks id event db)
      let written = update_status (status_update id next) logged
      ok (find_session id written, written)

    -- `apply`.
    unfoldable pub apply :
        ℕ
        → String
        → SessionEvent
        → Option String
        → Db
        → Db × Result TransitionError (Option Session)
    unfolding apply_stored
    apply now id event agent_id = execute (λ db. elim (find_session id db) [
      | none ↦
          ok
            (none, create_event (record { session_id = id; agent_id = agent_id; event = event }) db)
      | some session ↦ apply_stored now id event agent_id session db
    ])
