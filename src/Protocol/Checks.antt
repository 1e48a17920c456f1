-- ===== src/Protocol/Checks.antt =====
-- The payload of `checks.result` and `summarizeChecksFailure`, of
-- packages/shared-contracts/src/protocol/events.ts. `useful_line` stands for
-- `extractUsefulLogLine`, which picks a line of the logs by regular expressions.
pub mod Laws
mod Tests
use Prim.Native.String.{◌++◌}
use pair_dock.Prelude.{
  String, Bool, true, false, not, Option, none, some, List, [], ◌∷◌, if◌then◌else◌, has_text,
  truthy,
}

pub data CheckStatus : Type 0 where
  passed failed skipped : CheckStatus

pub record CheckResult : Type 0 where
  pub status : CheckStatus
  pub command : Option String
  pub logs : Option String

pub record ChecksResult : Type 0 where
  pub all_ok : Bool
  pub build : CheckResult
  pub tests : CheckResult
  pub lint : CheckResult
  pub preview : CheckResult

pub record ChecksFailureSummary : Type 0 where
  pub failed_checks : List String
  pub cause : Option String
  pub message : String

abbrev pub is_passed : CheckStatus → Bool
is_passed passed = true
is_passed _ = false

abbrev pub is_failed : CheckStatus → Bool
is_failed failed = true
is_failed _ = false

-- `checks`, the four results with their names.
abbrev pub named_checks : ChecksResult → List (String × CheckResult)
named_checks p =
    ("build", p.build) ∷ ("tests", p.tests) ∷ ("lint", p.lint) ∷ ("preview", p.preview) ∷ []

-- The checks that have not passed.
unfoldable pub not_passed : List (String × CheckResult) → List (String × CheckResult)
not_passed [] = []
not_passed ((name, result) ∷ checks) =
    let rest = not_passed checks in if is_passed result.status then rest else (name, result) ∷ rest

abbrev pub names : List (String × CheckResult) → List String
names [] = []
names ((name, _) ∷ checks) = name ∷ names checks

-- `labels.join(', ')`.
unfoldable pub join_labels : List String → String
join_labels [] = ""
join_labels (label ∷ []) = label
join_labels (label ∷ more ∷ labels) = label ++ ", " ++ join_labels (more ∷ labels)

module _ (useful_line : String → Option String) where
  -- `extractUsefulLogLine`, which answers `null` for logs that are absent or empty.
  abbrev pub extract : Option String → Option String
  extract none = none
  extract (some logs) = if truthy logs then useful_line logs else none

  -- The first useful line that is not empty.
  unfoldable pub find_cause : List (String × CheckResult) → Option String
  find_cause [] = none
  find_cause ((_, result) ∷ checks) =
      let rest = find_cause checks in
      if has_text (extract result.logs) then extract result.logs else rest

  abbrev pub cause_text : Option String → String
  cause_text none = ""
  cause_text (some cause) = " Cause: " ++ cause

  unfoldable pub summarize_checks_failure : ChecksResult → Option ChecksFailureSummary
  unfolding not_passed find_cause join_labels
  summarize_checks_failure p = elim (not_passed (named_checks p)) [
    | [] ↦ none
    | ◌∷◌ check checks ↦ some (record {
      failed_checks = names (check ∷ checks);
      cause = find_cause (check ∷ checks);
      message =
          "Validation failed for "
          ++ join_labels (names (check ∷ checks))
          ++ "."
          ++ cause_text (find_cause (check ∷ checks));
    })
  ]
