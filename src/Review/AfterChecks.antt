-- ===== src/Review/AfterChecks.antt =====
-- The policy, on what a checks result leaves behind.
use pair_dock.Prelude.{
  ℕ, String, true, false, Option, none, some, ◌≡◌, ◌↔◌, refl, inl, inr, Option-cases, ok, arith,
}
use pair_dock.Domain.{ValidationRun}
use pair_dock.Domain.Status.{awaiting_pm_validation, failed}
use pair_dock.Protocol.Checks.{ChecksResult, summarize_checks_failure}
use pair_dock.Protocol.Checks.Laws.{HasPassed, summarize_checks_failure_iff}
use pair_dock.Session.Events.{SessionEvent, next_session, settle_checks}
use pair_dock.Prompt.Effects.{checks_result}
use pair_dock.Prompt.Api.{Api, latest_after, react, react_to}
use pair_dock.Review.Policy.{failure_reasons, can_create_review_request}

-- A failed session is refused, whatever has been validated.
refused_when_failed :
    (latest : Option ValidationRun) → can_create_review_request latest failed ≡ false
unfolding can_create_review_request failure_reasons
refused_when_failed none = refl
refused_when_failed (some run) = refl

-- A run whose checks have all passed is allowed for a session that awaits its validation.
allowed_when_passed :
    (run : ValidationRun)
    → run.build_status ≡ some "passed"
    → run.test_status ≡ some "passed"
    → run.lint_status ≡ some "passed"
    → run.preview_status ≡ some "passed"
    → can_create_review_request (some run) awaiting_pm_validation ≡ true
unfolding can_create_review_request failure_reasons
allowed_when_passed run b t l p = rw (b, t, l, p) refl

module _ (useful_line : String → Option String) (now : ℕ) (before after : Api)
    (checks : ChecksResult)
    (applied : react useful_line now before (checks_result checks) ≡ ok after) where
  settled : after.session ≡ settle_checks useful_line before.session checks
  unfolding react react_to next_session
  settled = ground arith

  recorded : after.latest ≡ latest_after useful_line now before (SessionEvent.checks_result checks)
  unfolding react react_to next_session
  recorded = ground arith

  allowed_of_passed :
      HasPassed checks → can_create_review_request after.latest after.session.status ≡ true
  unfolding settle_checks
  allowed_of_passed h =
      let no_failure = (summarize_checks_failure_iff useful_line checks).1 h in
      let status : after.session.status ≡ awaiting_pm_validation =
        ground (arith, settled, no_failure) in
      rw (recorded, status)
        (allowed_when_passed _ (rw h.build refl) (rw h.tests refl) (rw h.lint refl)
          (rw h.preview refl))

  passed_of_allowed :
      can_create_review_request after.latest after.session.status ≡ true → HasPassed checks
  unfolding settle_checks
  passed_of_allowed allowed = elim (Option-cases (summarize_checks_failure useful_line checks)) [
    | inl no_failure ↦ (summarize_checks_failure_iff useful_line checks).0 no_failure
    | inr (failure, e) ↦
        let status : after.session.status ≡ failed = ground (arith, settled, e) in
        absurd (ground (arith, refused_when_failed after.latest, rw status at allowed))
  ]

-- Once a checks result is applied, the policy allows a review request exactly when build, tests,
-- lint and preview have all passed, whatever the session's status and validation runs were before.
pub can_create-after_checks :
    (useful_line : String → Option String) (now : ℕ) (before after : Api) (checks : ChecksResult)
    → react useful_line now before (checks_result checks) ≡ ok after
    → (can_create_review_request after.latest after.session.status ≡ true) ↔ HasPassed checks
can_create-after_checks useful_line now before after checks applied = (
  passed_of_allowed useful_line now before after checks applied,
  allowed_of_passed useful_line now before after checks applied,
)
