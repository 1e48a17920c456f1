-- ===== src/Validation.antt =====
-- The checks of the local agent: packages/local-agent/src/checks/checks-runner.ts. `compact` stands
-- for `compactValidationLogs`, which picks lines of long logs by regular expressions, and
-- `is_transient` for the test of /fail extracting tarball for/i on a text.
pub mod Laws
mod Steps
mod Tests
use pair_dock.Prelude.{
  ℕ, suc, String, Bool, false, not, ◌&&◌, Option, none, some, List, [], ◌∷◌, ◌<>◌, ◌==◌, join, eqb,
  truthy, if◌then◌else◌, Result, ok, err,
}
use pair_dock.Prelude.Actions.{Action, ◌>>=◌, return, throw, continue}
use pair_dock.Prelude.Decimal.{ℤ, pos, negsuc, to_string}
use pair_dock.Prelude.Dict.{Dict, get}
use pair_dock.Protocol.Checks.{
  CheckStatus, passed, failed, skipped, CheckResult, ChecksResult, is_passed, is_failed,
}
use pair_dock.Prompt.Effects.{RunChecksInput}

pub record ProjectChecks : Type 0 where
  pub build : Option String
  pub test : Option String
  pub lint : Option String

pub record Execution : Type 0 where
  pub exit_code : ℤ
  pub logs : String

pub record Response : Type 0 where
  pub is_ok : Bool
  pub http_status : ℤ

-- The machine that commands run on, with the number of commands that were started.
pub record Host (W : Type 0) : Type 0 where
  pub world : W
  pub executed : ℕ

-- What the runner calls; an error is its message.
pub record Calls (W : Type 0) : Type 0 where
  pub execute : Option (String → String → W → W × Result String Execution)
  pub fetch : String → W → W × Result String Response
  pub trim : String → String
  pub compact : String → String
  pub is_transient : String → Bool

abbrev no_checks : ProjectChecks
no_checks = record { build = none; test = none; lint = none }

-- `projectChecks[projectKey] ?? {}`.
abbrev checks_of : Option ProjectChecks → ProjectChecks
checks_of none = no_checks
checks_of (some checks) = checks

abbrev status_of_exit : ℤ → CheckStatus
status_of_exit (pos n) = if eqb n 0 then passed else failed
status_of_exit (negsuc n) = failed

-- `logs ? { logs: … } : {}`.
abbrev logs_or : Option String → (String → String) → String → Option String
logs_or otherwise f logs = if truthy logs then some (f logs) else otherwise

-- `filter(Boolean)` in front of more texts.
abbrev with_text : Option String → List String → List String
with_text none texts = texts
with_text (some s) texts = if truthy s then s ∷ texts else texts

abbrev retry_notice : String
retry_notice = "Retry 1/1 after a transient package extraction failure."

abbrev unconfigured : String → CheckResult
unconfigured label = record {
  status = skipped;
  command = none;
  logs = some ("No " <> label <> " command configured.");
}

abbrev pub preview_failed : String → CheckResult
preview_failed message = record { status = failed; command = none; logs = some message }

abbrev preview_passed : CheckResult
preview_passed = record { status = passed; command = none; logs = none }

-- `every((check) => check.status === 'passed')`.
abbrev pub every_passed : CheckResult → CheckResult → CheckResult → CheckResult → Bool
every_passed build tests lint preview =
    is_passed build.status
    && (is_passed tests.status && (is_passed lint.status && is_passed preview.status))

module _ {W : Type 0} (C : Calls W) where
  abbrev pub is_transient_failure : Option String → Bool
  is_transient_failure none = C.is_transient ""
  is_transient_failure (some logs) = C.is_transient logs

  abbrev pub attempt_result : String → Execution → CheckResult
  attempt_result command e = record {
    status = status_of_exit e.exit_code;
    command = some command;
    logs = logs_or none C.compact (C.trim e.logs);
  }

  abbrev pub started : {A : Type 0} → ℕ → W × Result String A → Host W × Result String A
  started n (world, reply) = (record { world = world; executed = suc n }, reply)

  -- A call of the executor.
  abbrev pub executing :
      Option (String → String → W → W × Result String Execution)
      → String
      → String
      → Action (Host W) String Execution
  executing none command id host = throw "Host validation command executor is not configured." host
  executing (some execute) command id host = started host.executed (execute command id host.world)

  unfoldable pub run_command_attempt : String → String → Action (Host W) String CheckResult
  run_command_attempt command id =
      executing C.execute command id >>= λ e. return (attempt_result command e)

  -- The result of a second attempt, with the logs of both.
  abbrev pub retried : CheckResult → CheckResult → CheckResult
  retried first retry = record retry {
    logs =
        logs_or retry.logs C.compact
          (C.trim (join "\n" (with_text first.logs (retry_notice ∷ with_text retry.logs []))));
  }

  -- What follows the first attempt.
  abbrev after_first : String → String → CheckResult → Action (Host W) String CheckResult
  after_first command id first =
      if is_failed first.status && is_transient_failure first.logs
      then (run_command_attempt command id >>= λ retry. return (retried first retry))
      else return first

  abbrev run_command : String → String → Action (Host W) String CheckResult
  run_command command id = run_command_attempt command id >>= after_first command id

  unfoldable pub run_command_check :
      Option String → String → String → Action (Host W) String CheckResult
  run_command_check none id label = return (unconfigured label)
  run_command_check (some command) id label =
      if truthy command then run_command command id else return (unconfigured label)

  abbrev preview_result : Result String Response → CheckResult
  preview_result (err message) = preview_failed message
  preview_result (ok response) =
      if response.is_ok
      then preview_passed
      else preview_failed ("Preview responded with HTTP " <> to_string response.http_status <> ".")

  abbrev pub fetched : ℕ → W × Result String Response → Host W × Result String CheckResult
  fetched n (world, reply) = (record { world = world; executed = n }, ok (preview_result reply))

  unfoldable pub run_preview_check : Option String → Action (Host W) String CheckResult
  run_preview_check none host = (host, ok (preview_failed "Preview URL is not available."))
  run_preview_check (some url) host =
      if truthy url
      then fetched host.executed (C.fetch url host.world)
      else (host, ok (preview_failed "Preview URL is not available."))

  -- `run`, once the commands of the project are found.
  abbrev pub run_all : ProjectChecks → RunChecksInput → Action (Host W) String ChecksResult
  run_all checks i = run_command_check checks.build i.session_id "build" >>= λ build.
      run_command_check checks.test i.session_id "test" >>= λ tests.
      run_command_check checks.lint i.session_id "lint" >>= λ lint.
      run_preview_check i.preview_url >>= λ preview. return (record {
        all_ok = every_passed build tests lint preview;
        build = build;
        tests = tests;
        lint = lint;
        preview = preview;
      })

  unfoldable pub run : Dict ProjectChecks → RunChecksInput → Action (Host W) String ChecksResult
  unfolding run_command_check run_preview_check run_command_attempt
  run projects i = run_all (checks_of (get i.project_key projects)) i
