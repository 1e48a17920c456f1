-- ===== src/Review/Policy.antt =====
-- apps/api/src/validation/validation.policy.ts. A reason is named for what it asks; the code
-- joins their sentences for its answer.
use pair_dock.Prelude.{
  String, Bool, true, false, Option, none, some, List, [], ◌∷◌, ◌++◌, ◌==◌, if◌then◌else◌,
}
use pair_dock.Domain.{SessionStatus, ValidationRun}
use pair_dock.Domain.Status.{awaiting_pm_validation, same_status}

pub data Reason : Type 0 where
  no_validation_run not_awaiting build_not_passed tests_not_passed lint_not_passed
        preview_not_passed :
      Reason

-- `if (!held) { reasons.push(reason); }`.
abbrev push_unless : Bool → Reason → List Reason
push_unless held reason = if held then [] else reason ∷ []

-- `status === 'passed'`, on a nullable status.
abbrev pub has_passed : Option String → Bool
has_passed none = false
has_passed (some status) = status == "passed"

unfoldable pub failure_reasons : Option ValidationRun → SessionStatus → List Reason
failure_reasons none status = no_validation_run ∷ []
failure_reasons (some run) status =
    push_unless (same_status status awaiting_pm_validation) not_awaiting
    ++ push_unless (has_passed run.build_status) build_not_passed
    ++ push_unless (has_passed run.test_status) tests_not_passed
    ++ push_unless (has_passed run.lint_status) lint_not_passed
    ++ push_unless (has_passed run.preview_status) preview_not_passed

abbrev is_empty {ℓ} : {A : Type ℓ} → List A → Bool
is_empty [] = true
is_empty (_ ∷ _) = false

unfoldable pub can_create_review_request : Option ValidationRun → SessionStatus → Bool
unfolding failure_reasons
can_create_review_request latest status = is_empty (failure_reasons latest status)
