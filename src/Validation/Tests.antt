-- ===== src/Validation/Tests.antt =====
-- A project with checks, on a machine whose first command fails to unpack a package.
use pair_dock.Prelude.{
  ℕ, suc, String, true, false, Option, none, some, [], ◌∷◌, ◌≡◌, refl, Result, ok, err,
  if◌then◌else◌, ◌==◌, eqb, ◌≤◌, ◌+◌,
}
use pair_dock.Prelude.Actions.{After}
use pair_dock.Prelude.Decimal.{pos}
use pair_dock.Prelude.Dict.{Dict, get}
use pair_dock.Prompt.Effects.{RunChecksInput}
use pair_dock.Protocol.Checks.{skipped}
use pair_dock.Validation.{
  ProjectChecks, Execution, Response, Host, Calls, run_command_check, run_command_attempt,
  run_preview_check, run, checks_of,
}
use pair_dock.Validation.Laws.{IsReport, run-IsReport}

-- The first command fails, the others succeed.
abbrev execute : String → String → ℕ → ℕ × Result String Execution
execute command id n =
    if eqb n 0
    then (suc n, ok (record { exit_code = pos 1; logs = "fail extracting" }))
    else (suc n, ok (record { exit_code = pos 0; logs = "" }))

abbrev fetch : String → ℕ → ℕ × Result String Response
fetch url n = (n, ok (record { is_ok = true; http_status = pos 200 }))

abbrev same : String → String
same text = text

abbrev no_line : String → Option String
no_line logs = none

abbrev calls : Calls ℕ
calls = record {
  execute = some execute;
  fetch = fetch;
  trim = same;
  compact = same;
  is_transient = λ logs. logs == "fail extracting";
}

abbrev unconfigured_calls : Calls ℕ
unconfigured_calls = record calls { execute = none }

abbrev checks : ProjectChecks
checks = record { build = some "make"; test = some "make test"; lint = some "lint" }

abbrev projects : Dict ProjectChecks
projects = ("shop", checks) ∷ []

abbrev input : String → RunChecksInput
input key = record { project_key = key; preview_url = some "http://shop"; session_id = "s1" }

abbrev machine : Host ℕ
machine = record { world = 0; executed = 0 }

-- The first command is tried again once.
retries : (run calls projects (input "shop") machine).0.executed ≡ 4
unfolding run run_command_check run_command_attempt run_preview_check get
retries = refl

not_again :
    (run_command_check
      (record calls { is_transient = λ logs. false })
      (some "make")
      "s1"
      "build"
      machine).0.executed
    ≡ 1
unfolding run_command_check run_command_attempt
not_again = refl

unknown_project : run_command_check calls none "s1" "lint" machine ≡ (
  machine,
  ok (record { status = skipped; command = none; logs = some "No lint command configured." }),
)
unfolding run_command_check
unknown_project = refl

no_executor :
    (run unconfigured_calls projects (input "shop") machine).1
    ≡ err "Host validation command executor is not configured."
unfolding run run_command_check run_command_attempt run_preview_check get
no_executor = refl

run-IsReport_example :
    After
      (λ p after.
        IsReport no_line (checks_of (get "shop" projects)) (input "shop") p
        × (after.executed ≤ machine.executed + 6))
      (λ e after. after.executed ≤ machine.executed + 6)
      (run calls projects (input "shop") machine)
run-IsReport_example = run-IsReport calls no_line projects (input "shop") machine
