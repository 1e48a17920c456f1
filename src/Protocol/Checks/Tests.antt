-- ===== src/Protocol/Checks/Tests.antt =====
-- A checks result whose lint was skipped, and one that failed.
use pair_dock.Prelude.{String, false, Option, none, some, [], ◌∷◌, ◌≡◌, refl}
use pair_dock.Protocol.Checks.{
  CheckStatus, passed, failed, skipped, CheckResult, ChecksResult, not_passed, join_labels,
  find_cause, summarize_checks_failure,
}

abbrev result : CheckStatus → Option String → CheckResult
result status logs = record { status = status; command = none; logs = logs }

abbrev failing : ChecksResult
failing = record {
  all_ok = false;
  build = result failed (some "Error: no such module");
  tests = result passed none;
  lint = result skipped none;
  preview = result passed none;
}

abbrev useful_line : String → Option String
useful_line logs = some logs

summary_of_failing :
    summarize_checks_failure useful_line failing
    ≡ some (record {
      failed_checks = "build" ∷ "lint" ∷ [];
      cause = some "Error: no such module";
      message = "Validation failed for build, lint. Cause: Error: no such module";
    })
unfolding summarize_checks_failure not_passed find_cause join_labels
summary_of_failing = refl
