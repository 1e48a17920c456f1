-- ===== src/Review/Tests.antt =====
-- A session whose checks have passed.
use pair_dock.Prelude.{String, true, Option, none, ◌≡◌, ◌↔◌, refl, ok}
use pair_dock.Domain.Samples.{session_in}
use pair_dock.Domain.Status.{checks_running, awaiting_pm_validation}
use pair_dock.Protocol.Checks.{
  passed, CheckResult, ChecksResult, not_passed, summarize_checks_failure,
}
use pair_dock.Protocol.Checks.Laws.{HasPassed}
use pair_dock.Session.Events.{next_session, settle_checks}
use pair_dock.Prompt.Effects.{checks_result}
use pair_dock.Prompt.Api.{Api, latest_after, react, react_to}
use pair_dock.Session.Events.{SessionEvent}
use pair_dock.Review.Policy.{can_create_review_request}
use pair_dock.Review.AfterChecks.{can_create-after_checks}

abbrev good : CheckResult
good = record { status = passed; command = none; logs = none }

abbrev all_good : ChecksResult
all_good = record { all_ok = true; build = good; tests = good; lint = good; preview = good }

abbrev no_line : String → Option String
no_line logs = none

abbrev before : Api
before = record { session = session_in checks_running; latest = none }

abbrev after : Api
after = record {
  session = session_in awaiting_pm_validation;
  latest = latest_after no_line 9 before (SessionEvent.checks_result all_good);
}

applied : react no_line 9 before (checks_result all_good) ≡ ok after
unfolding react react_to next_session settle_checks summarize_checks_failure not_passed
applied = refl

can_create-after_checks_example :
    (can_create_review_request after.latest after.session.status ≡ true) ↔ HasPassed all_good
can_create-after_checks_example = can_create-after_checks no_line 9 before after all_good applied
