-- ===== src/Validation/Laws.antt =====
-- What the checks of a project answer, and how many commands they start.
use pair_dock.Prelude.{◌≤◌, ◌+◌, String, true, Option, none, ◌≡◌, ◌↔◌, arith, has_text}
use pair_dock.Prelude.Actions.{After}
use pair_dock.Prelude.Dict.{Dict, get}
use pair_dock.Prompt.Effects.{RunChecksInput}
use pair_dock.Protocol.Checks.{CheckResult, ChecksResult, is_passed, summarize_checks_failure}
use pair_dock.Protocol.Checks.Laws.{HasPassed, summarize_checks_failure_iff}
use pair_dock.Validation.{ProjectChecks, Calls, Host, checks_of, run, every_passed}
use pair_dock.Validation.Steps.{Within, check_then, preview_then}

-- The answer of a run that was given these commands and this preview.
pub record IsReport (useful_line : String → Option String) (checks : ProjectChecks)
    (i : RunChecksInput) (p : ChecksResult) : Type 0 where
  pub agrees : (p.all_ok ≡ true) ↔ (summarize_checks_failure useful_line p ≡ none)
  pub build : p.all_ok ≡ true → has_text checks.build ≡ true
  pub test : p.all_ok ≡ true → has_text checks.test ≡ true
  pub lint : p.all_ok ≡ true → has_text checks.lint ≡ true
  pub preview : p.all_ok ≡ true → has_text i.preview_url ≡ true

every_passed_iff :
    (build tests lint preview : CheckResult)
    → (every_passed build tests lint preview ≡ true)
      ↔ HasPassed (record {
        all_ok = every_passed build tests lint preview;
        build = build;
        tests = tests;
        lint = lint;
        preview = preview;
      })
every_passed_iff build tests lint preview = ground arith

report :
    (useful_line : String → Option String) (checks : ProjectChecks) (i : RunChecksInput)
    (build tests lint preview : CheckResult)
    → (is_passed build.status ≡ true → has_text checks.build ≡ true)
    → (is_passed tests.status ≡ true → has_text checks.test ≡ true)
    → (is_passed lint.status ≡ true → has_text checks.lint ≡ true)
    → (is_passed preview.status ≡ true → has_text i.preview_url ≡ true)
    → IsReport useful_line checks i (record {
      all_ok = every_passed build tests lint preview;
      build = build;
      tests = tests;
      lint = lint;
      preview = preview;
    })
report useful_line checks i build tests lint preview b t l v = record {
  agrees = (
    λ passed.
        (summarize_checks_failure_iff useful_line _).1
          ((every_passed_iff build tests lint preview).0 passed),
    λ silent.
        (every_passed_iff build tests lint preview).1
          ((summarize_checks_failure_iff useful_line _).0 silent),
  );
  build = ground arith;
  test = ground arith;
  lint = ground arith;
  preview = ground arith;
}

module _ {W : Type 0} (C : Calls W) where
  -- Whatever the commands and the preview answer or throw: the verdict of a run that returns is the
  -- one that the API's summary draws from its results, and a good verdict means that there was a
  -- command for every check and a preview; a run starts at most six commands, also where it throws.
  pub run-IsReport :
      (useful_line : String → Option String) (projects : Dict ProjectChecks) (i : RunChecksInput)
      (h : Host W)
      → After
          (λ p after.
            IsReport useful_line (checks_of (get i.project_key projects)) i p
            × (after.executed ≤ h.executed + 6))
          (Within (h.executed + 6))
          (run C projects i h)
  unfolding run
  run-IsReport useful_line projects i h =
      let checks = checks_of (get i.project_key projects) in
      let n = h.executed in
      let R = λ (p : ChecksResult) (after : Host W).
        IsReport useful_line checks i p × (after.executed ≤ n + 6) in
      check_then C R checks.build i.session_id "build" n (n + 6) h (omega arith) (omega arith) _
        (λ build after_build built.
          check_then C R checks.test i.session_id "test" (n + 2) (n + 6) after_build built.bound
            (omega arith) _
            (λ tests after_tests tested.
              check_then C R checks.lint i.session_id "lint" (n + 2 + 2) (n + 6) after_tests
                tested.bound (omega arith) _
                (λ lint after_lint linted.
                  preview_then C R i.preview_url (n + 2 + 2 + 2) (n + 6) after_lint linted.bound
                    (omega arith) _
                    (λ preview after shown. (
                      report useful_line checks i build tests lint preview built.has_target
                          tested.has_target linted.has_target shown.has_target,
                      omega (arith, shown.bound),
                    )))))
