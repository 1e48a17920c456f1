-- ===== src/Protocol/Checks/Laws.antt =====
-- When a checks result counts as a failure.
use pair_dock.Prelude.{String, Option, none, ◌≡◌, ◌↔◌, arith}
use pair_dock.Protocol.Checks.{passed, ChecksResult, summarize_checks_failure}

-- Every check has passed; one that was skipped has not.
pub record HasPassed (p : ChecksResult) : Type 0 where
  pub build : p.build.status ≡ passed
  pub tests : p.tests.status ≡ passed
  pub lint : p.lint.status ≡ passed
  pub preview : p.preview.status ≡ passed

-- The summary reports no failure exactly when build, tests, lint and preview have all passed,
-- whatever the payload's own verdict says.
pub summarize_checks_failure_iff :
    (useful_line : String → Option String) (p : ChecksResult)
    → (summarize_checks_failure useful_line p ≡ none) ↔ HasPassed p
unfolding summarize_checks_failure
summarize_checks_failure_iff useful_line p = ground arith
