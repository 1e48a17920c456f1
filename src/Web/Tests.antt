-- ===== src/Web/Tests.antt =====
-- A session whose work is done.
use pair_dock.Prelude.{String, true, false, Option, none, some, ◌≡◌, ◌↔◌, refl, has_text}
use pair_dock.Domain.{ValidationRun}
use pair_dock.Domain.Status.{awaiting_pm_validation, agent_running}
use pair_dock.Review.Policy.{can_create_review_request}
use pair_dock.Web.{
  describe_checks, describe_check, describe_session_validation, notice_of, summary_of,
  get_review_request_blocked_reason, reason_for, session_view,
}
use pair_dock.Web.Laws.{get_review_request_blocked_reason_iff}

abbrev run_with : Option String → ValidationRun
run_with lint = record {
  id = "v1";
  session_id = "s1";
  status = "passed";
  build_status = some "passed";
  test_status = some "passed";
  lint_status = lint;
  preview_status = some "passed";
  logs_ref = none;
  created_at = 3;
}

offered :
    get_review_request_blocked_reason
      (session_view awaiting_pm_validation true (some (run_with (some "passed"))) none)
      false
    ≡ none
unfolding get_review_request_blocked_reason reason_for session_view describe_session_validation
    describe_checks describe_check
offered = refl

offline_agent :
    get_review_request_blocked_reason
      (session_view awaiting_pm_validation false (some (run_with (some "passed"))) none)
      false
    ≡ some "L’agent est hors ligne. Attends sa reconnexion pour créer la PR."
unfolding get_review_request_blocked_reason reason_for session_view describe_session_validation
offline_agent = refl

incomplete :
    (describe_session_validation
      (session_view agent_running true (some (run_with none)) none).latest_validation
      "AGENT_RUNNING").summary
    ≡ "La validation est incomplète."
unfolding describe_session_validation summary_of describe_checks describe_check session_view
incomplete = refl

notices : (notice_of "READY" ≡ none)
unfolding notice_of
notices = refl

get_review_request_blocked_reason_iff_example :
    (get_review_request_blocked_reason
        (session_view awaiting_pm_validation true (some (run_with (some "passed"))) none)
        false
      ≡ none)
    ↔ ((false ≡ false)
        × (has_text none ≡ false)
        × (true ≡ true)
        × (can_create_review_request (some (run_with (some "passed"))) awaiting_pm_validation
            ≡ true))
get_review_request_blocked_reason_iff_example =
    get_review_request_blocked_reason_iff awaiting_pm_validation true false
      (some (run_with (some "passed"))) none
