-- ===== src/Web.antt =====
-- What the page of a session says of its validation: apps/web/src/lib/session-validation.ts, on the
-- fields of a session that it reads, and how the API fills them
-- (apps/api/src/sessions/sessions.service.ts).
pub mod Laws
mod Tests
use pair_dock.Prelude.{
  String, Bool, true, false, ◌&&◌, ◌||◌, Option, none, some, List, [], ◌∷◌, any, ◌==◌, ◌<>◌, truthy,
  has_text, if◌then◌else◌,
}
use pair_dock.Domain.{SessionStatus, ValidationRun}
use pair_dock.Domain.Status.{
  created, agent_connecting, worktree_creating, docker_starting, preview_starting, ready,
  agent_running, checks_running, awaiting_pm_validation, review_request_creating,
  review_request_created, closing, closed, failed,
}

pub data Availability : Type 0 where
  online offline : Availability

pub record ValidationSummary : Type 0 where
  pub status : String
  pub build_status : Option String
  pub lint_status : Option String
  pub test_status : Option String
  pub preview_status : Option String

pub record SessionView : Type 0 where
  pub status : String
  pub agent_availability : Availability
  pub latest_validation : Option ValidationSummary
  pub review_request_url : Option String

pub data ShownStatus : Type 0 where
  shown_passed shown_failed shown_skipped unknown : ShownStatus

pub record SessionValidationCheck : Type 0 where
  pub label : String
  pub status : ShownStatus
  pub detail : String

pub record SessionValidation : Type 0 where
  pub checks : List SessionValidationCheck
  pub summary : String
  pub notice : Option String

abbrev pub shows_passed : ShownStatus → Bool
shows_passed shown_passed = true
shows_passed _ = false

abbrev shows_failed : ShownStatus → Bool
shows_failed shown_failed = true
shows_failed _ = false

abbrev pub every_shows_passed : List SessionValidationCheck → Bool
every_shows_passed [] = true
every_shows_passed (check ∷ checks) = shows_passed check.status && every_shows_passed checks

abbrev check_of : String → ShownStatus → String → SessionValidationCheck
check_of label status detail = record { label = label; status = status; detail = detail }

unfoldable pub describe_check : String → Option String → SessionValidationCheck
describe_check label none = check_of label unknown "Non renseigné"
describe_check label (some status) =
    if status == "passed"
    then check_of label shown_passed "Réussi"
    else (if status == "failed"
        then check_of label shown_failed "Échoué"
        else (if status == "skipped"
            then check_of label shown_skipped "Non exécuté"
            else check_of label unknown
                (if truthy status then "Statut inconnu : " <> status else "Non renseigné")))

-- `checks`, with the optional chaining of an absent validation.
unfoldable pub describe_checks : Option ValidationSummary → List SessionValidationCheck
unfolding describe_check
describe_checks none =
    describe_check "Compilation" none
    ∷ describe_check "Tests" none
    ∷ describe_check "Analyse du code" none
    ∷ describe_check "Aperçu" none
    ∷ []
describe_checks (some v) =
    describe_check "Compilation" v.build_status
    ∷ describe_check "Tests" v.test_status
    ∷ describe_check "Analyse du code" v.lint_status
    ∷ describe_check "Aperçu" v.preview_status
    ∷ []

unfoldable pub summary_of : Option ValidationSummary → List SessionValidationCheck → String
summary_of none checks = "Aucun résultat de validation reçu."
summary_of (some v) checks =
    if v.status == "failed" || any (λ check. shows_failed check.status) checks
    then "Des contrôles ont échoué."
    else (if every_shows_passed checks
        then "Tous les contrôles ont réussi."
        else "La validation est incomplète.")

unfoldable pub notice_of : String → Option String
notice_of status =
    if status == "AGENT_RUNNING" || status == "CHECKS_RUNNING"
    then some
        "Travail en cours : ces derniers résultats ne valident pas encore les nouvelles modifications."
    else (if status == "FAILED"
        then some
            "La dernière demande a échoué. Ces contrôles ne suffisent pas à valider son résultat."
        else none)

unfoldable pub describe_session_validation : Option ValidationSummary → String → SessionValidation
unfolding describe_checks summary_of notice_of
describe_session_validation validation status = record {
  checks = describe_checks validation;
  summary = summary_of validation (describe_checks validation);
  notice = notice_of status;
}

abbrev pub is_online : Availability → Bool
is_online online = true
is_online offline = false

abbrev is_present : Option ValidationSummary → Bool
is_present none = false
is_present (some _) = true

-- The guards behind the one on the participants.
unfoldable pub reason_for : SessionView → Option String
unfolding describe_session_validation
reason_for s =
    if has_text s.review_request_url
    then some "Une PR existe déjà pour cette session."
    else (if s.status == "CLOSED" || s.status == "CLOSING"
        then some "Cette session est terminée ou en cours de fermeture."
        else (if is_online s.agent_availability
            then (if s.status == "AWAITING_PM_VALIDATION"
                then (if is_present s.latest_validation
                      && every_shows_passed
                          (describe_session_validation s.latest_validation s.status).checks
                    then none
                    else some
                        "La compilation, les tests, l’analyse du code et l’aperçu doivent réussir avant la création de la PR.")
                else some
                    "La PR sera disponible lorsque le travail et ses contrôles seront terminés.")
            else some "L’agent est hors ligne. Attends sa reconnexion pour créer la PR."))

unfoldable pub get_review_request_blocked_reason : SessionView → Bool → Option String
unfolding reason_for
get_review_request_blocked_reason session is_read_only =
    if is_read_only
    then some "La création d’une PR est réservée aux participants autorisés de la session."
    else reason_for session

-- The texts of the statuses.
abbrev pub status_name : SessionStatus → String
status_name created = "CREATED"
status_name agent_connecting = "AGENT_CONNECTING"
status_name worktree_creating = "WORKTREE_CREATING"
status_name docker_starting = "DOCKER_STARTING"
status_name preview_starting = "PREVIEW_STARTING"
status_name ready = "READY"
status_name agent_running = "AGENT_RUNNING"
status_name checks_running = "CHECKS_RUNNING"
status_name awaiting_pm_validation = "AWAITING_PM_VALIDATION"
status_name review_request_creating = "REVIEW_REQUEST_CREATING"
status_name review_request_created = "REVIEW_REQUEST_CREATED"
status_name closing = "CLOSING"
status_name closed = "CLOSED"
status_name failed = "FAILED"

abbrev validation_view : Option ValidationRun → Option ValidationSummary
validation_view none = none
validation_view (some run) = some (record {
  status = run.status;
  build_status = run.build_status;
  lint_status = run.lint_status;
  test_status = run.test_status;
  preview_status = run.preview_status;
})

-- `buildSessionResponse`, these fields.
unfoldable pub session_view :
    SessionStatus → Bool → Option ValidationRun → Option String → SessionView
session_view status is_connected latest url = record {
  status = status_name status;
  agent_availability = if is_connected then online else offline;
  latest_validation = validation_view latest;
  review_request_url = url;
}
