-- ===== src/Web/Laws.antt =====
-- The page offers a review request when the API would create it.
use pair_dock.Prelude.{
  String, Bool, true, false, Option, none, some, ◌≡◌, ◌↔◌, refl, sym, subst, arith, has_text, ◌⊎◌,
  inl, inr, ◌==◌,
}
use pair_dock.Domain.{SessionStatus, ValidationRun}
use pair_dock.Domain.Status.{
  created, agent_connecting, worktree_creating, docker_starting, preview_starting, ready,
  agent_running, checks_running, awaiting_pm_validation, same_status, review_request_creating,
  review_request_created, closing, closed, failed,
}
use pair_dock.Review.Policy.{failure_reasons, can_create_review_request, has_passed}
use pair_dock.Web.{
  describe_check, describe_checks, describe_session_validation, reason_for, shows_passed,
  every_shows_passed, status_name, get_review_request_blocked_reason, session_view,
}

-- A check is shown as passed when its status says so.
shows_passed-describe_check :
    (label : String) (status : Option String)
    → shows_passed (describe_check label status).status ≡ has_passed status
unfolding describe_check
shows_passed-describe_check label none = refl
shows_passed-describe_check label (some status) = ground arith

every_shows_passed-run :
    (is_connected : Bool) (url : Option String) (run : ValidationRun)
    → every_shows_passed (
        describe_checks
          (session_view awaiting_pm_validation is_connected (some run) url).latest_validation)
      ≡ can_create_review_request (some run) awaiting_pm_validation
unfolding describe_checks session_view can_create_review_request failure_reasons
every_shows_passed-run is_connected url run =
    rw
      (
        shows_passed-describe_check "Compilation" run.build_status,
        shows_passed-describe_check "Tests" run.test_status,
        shows_passed-describe_check "Analyse du code" run.lint_status,
        shows_passed-describe_check "Aperçu" run.preview_status,
      )
      (ground arith)

status_name_iff :
    (status : SessionStatus)
    → (status_name status == "AWAITING_PM_VALIDATION") ≡ same_status status awaiting_pm_validation
status_name_iff created = refl
status_name_iff agent_connecting = refl
status_name_iff worktree_creating = refl
status_name_iff docker_starting = refl
status_name_iff preview_starting = refl
status_name_iff ready = refl
status_name_iff agent_running = refl
status_name_iff checks_running = refl
status_name_iff awaiting_pm_validation = refl
status_name_iff review_request_creating = refl
status_name_iff review_request_created = refl
status_name_iff closing = refl
status_name_iff closed = refl
status_name_iff failed = refl

-- Nothing is allowed without a run, or for a session that does not await its validation.
can_create-refuses :
    (status : SessionStatus) (latest : Option ValidationRun)
    → same_status status awaiting_pm_validation ≡ false
    → can_create_review_request latest status ≡ false
unfolding can_create_review_request failure_reasons
can_create-refuses status none other = refl
can_create-refuses status (some run) other = rw (other) refl

awaiting-cases :
    (status : SessionStatus)
    → (status ≡ awaiting_pm_validation) ⊎ (same_status status awaiting_pm_validation ≡ false)
awaiting-cases status = ground arith

-- The equivalence, for a session.
Offers : SessionStatus → Bool → Bool → Option ValidationRun → Option String → Type 0
Offers status is_connected is_read_only latest url =
    (get_review_request_blocked_reason (session_view status is_connected latest url) is_read_only
      ≡ none)
    ↔ ((is_read_only ≡ false)
        × (has_text url ≡ false)
        × (is_connected ≡ true)
        × (can_create_review_request latest status ≡ true))

awaiting-Offers :
    (is_connected is_read_only : Bool) (latest : Option ValidationRun) (url : Option String)
    → Offers awaiting_pm_validation is_connected is_read_only latest url
unfolding Offers get_review_request_blocked_reason reason_for session_view
    describe_session_validation can_create_review_request failure_reasons
awaiting-Offers is_connected is_read_only none url = ground arith
awaiting-Offers is_connected is_read_only (some run) url =
    let passes = every_shows_passed-run is_connected url run in ground arith

other-Offers :
    (status : SessionStatus) (is_connected is_read_only : Bool) (latest : Option ValidationRun)
    (url : Option String)
    → same_status status awaiting_pm_validation ≡ false
    → Offers status is_connected is_read_only latest url
unfolding Offers get_review_request_blocked_reason reason_for session_view
other-Offers status is_connected is_read_only latest url other =
    let refuses = can_create-refuses status latest other in
    let name = status_name_iff status in ground arith

-- The page shows no reason against a review request exactly when the user is a participant, there is
-- no review request with a URL, the agent is connected, and the API's policy allows one for the
-- session and its latest validation run.
pub get_review_request_blocked_reason_iff :
    (status : SessionStatus) (is_connected is_read_only : Bool) (latest : Option ValidationRun)
    (url : Option String)
    → (get_review_request_blocked_reason (session_view status is_connected latest url) is_read_only
        ≡ none)
      ↔ ((is_read_only ≡ false)
          × (has_text url ≡ false)
          × (is_connected ≡ true)
          × (can_create_review_request latest status ≡ true))
unfolding Offers get_review_request_blocked_reason reason_for session_view
    describe_session_validation describe_checks describe_check can_create_review_request
    failure_reasons
get_review_request_blocked_reason_iff status is_connected is_read_only latest url =
    elim (awaiting-cases status) [
      | inl p ↦
          subst (λ s. Offers s is_connected is_read_only latest url) (sym p)
            (awaiting-Offers is_connected is_read_only latest url)
      | inr other ↦ other-Offers status is_connected is_read_only latest url other
    ]
