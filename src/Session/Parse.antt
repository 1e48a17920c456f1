-- ===== src/Session/Parse.antt =====
-- `parseSessionAgentEvent` of apps/api/src/sessions/sessions.service.ts: the events that the owner
-- of a session may send over HTTP, out of JSON. A number is an integer here.
pub mod RoundTrip
mod Tests
use pair_dock.Prelude.{
  String, Bool, true, false, Option, none, some, List, [], ◌∷◌, ◌==◌, if◌then◌else◌, truthy, Result,
  ok, err, ◌>>=◌,
}
use pair_dock.Prelude.Decimal.{ℤ}
use pair_dock.Domain.{ProgressStatus}
use pair_dock.Domain.Status.{
  connecting, creating_worktree, starting_docker, starting_preview, running_agent, running_checks,
  awaiting_validation, creating_review_request, created_review_request,
}
use pair_dock.Session.Machine.{
  SessionAgentEvent, progress, became_ready, recovered, done, session_closed, error,
}

mutual
  pub data Json : Type 0 where
    null : Json
    bool : Bool → Json
    number : ℤ → Json
    text : String → Json
    array : Items → Json
    object : Fields → Json

  pub data Items : Type 0 where
    no_items : Items
    item : Json → Items → Items

  pub data Fields : Type 0 where
    no_fields : Fields
    field : String → Json → Fields → Fields

pub data ParseError : Type 0 where
  type_required payload_required status_invalid progress_message_invalid preview_url_required :
      ParseError
  exit_code_required changes_invalid cleaned_required error_invalid : ParseError

-- `payload.key`; an absent field is `undefined`, here `none`.
unfoldable pub get_field : String → Fields → Option Json
get_field key no_fields = none
get_field key (field k v fields) = if k == key then some v else get_field key fields

-- `requireObject`.
abbrev pub require_object : Option Json → ParseError → Result ParseError Fields
require_object (some (object fields)) e = ok fields
require_object _ e = err e

abbrev pub require_text : Option Json → ParseError → Result ParseError String
require_text (some (text s)) e = ok s
require_text _ e = err e

abbrev pub require_bool : Option Json → ParseError → Result ParseError Bool
require_bool (some (bool b)) e = ok b
require_bool _ e = err e

abbrev pub require_number : Option Json → ParseError → Result ParseError ℤ
require_number (some (number n)) e = ok n
require_number _ e = err e

abbrev pub optional_text : Option Json → ParseError → Result ParseError (Option String)
optional_text none e = ok none
optional_text (some (text s)) e = ok (some s)
optional_text (some _) e = err e

abbrev pub optional_bool : Option Json → ParseError → Result ParseError (Option Bool)
optional_bool none e = ok none
optional_bool (some (bool b)) e = ok (some b)
optional_bool (some _) e = err e

abbrev pub status_text : ProgressStatus → String
status_text connecting = "AGENT_CONNECTING"
status_text creating_worktree = "WORKTREE_CREATING"
status_text starting_docker = "DOCKER_STARTING"
status_text starting_preview = "PREVIEW_STARTING"
status_text running_agent = "AGENT_RUNNING"
status_text running_checks = "CHECKS_RUNNING"
status_text awaiting_validation = "AWAITING_PM_VALIDATION"
status_text creating_review_request = "REVIEW_REQUEST_CREATING"
status_text created_review_request = "REVIEW_REQUEST_CREATED"

abbrev pub all_statuses : List ProgressStatus
all_statuses =
    connecting ∷ creating_worktree ∷ starting_docker ∷ starting_preview ∷ running_agent
    ∷ running_checks ∷ awaiting_validation ∷ creating_review_request ∷ created_review_request ∷ []

abbrev pub find_status : String → List ProgressStatus → Option ProgressStatus
find_status s [] = none
find_status s (p ∷ ps) = if s == status_text p then some p else find_status s ps

-- `isProgressStatus`, with the narrowed value.
abbrev pub parse_status : Option Json → Result ParseError ProgressStatus
parse_status (some (text s)) = elim (find_status s all_statuses) [
  | some p ↦ ok p
  | none ↦ err status_invalid
]
parse_status _ = err status_invalid

-- `message ? { message } : {}`.
abbrev pub keep_message : Option String → Option String
keep_message none = none
keep_message (some m) = if truthy m then some m else none

unfoldable pub parse_progress : Fields → Result ParseError SessionAgentEvent
unfolding get_field
parse_progress payload = do
  status ← parse_status (get_field "status" payload)
  message ← optional_text (get_field "message" payload) progress_message_invalid
  ok (progress status (keep_message message))

unfoldable pub parse_ready : Fields → Result ParseError SessionAgentEvent
unfolding get_field
parse_ready payload = do
  url ← require_text (get_field "previewUrl" payload) preview_url_required
  ok (became_ready url)

unfoldable pub parse_done : Fields → Result ParseError SessionAgentEvent
unfolding get_field
parse_done payload = do
  code ← require_number (get_field "exitCode" payload) exit_code_required
  changes ← optional_bool (get_field "changesDetected" payload) changes_invalid
  ok (done code changes none)

unfoldable pub parse_closed : Fields → Result ParseError SessionAgentEvent
unfolding get_field
parse_closed payload = do
  cleaned ← require_bool (get_field "cleaned" payload) cleaned_required
  ok (session_closed cleaned)

unfoldable pub parse_error : Fields → Result ParseError SessionAgentEvent
unfolding get_field
parse_error payload = do
  message ← require_text (get_field "message" payload) error_invalid
  retryable ← require_bool (get_field "retryable" payload) error_invalid
  ok (error message retryable)

-- `type === name`, which is false unless the type is a text.
abbrev pub has_type : Option Json → String → Bool
has_type (some (text s)) name = s == name
has_type _ name = false

unfoldable pub parse_payload : Option Json → Fields → Result ParseError SessionAgentEvent
unfolding parse_progress parse_ready parse_done parse_closed parse_error
parse_payload kind payload =
    if has_type kind "session.progress"
    then parse_progress payload
    else if has_type kind "session.ready"
    then parse_ready payload
    else if has_type kind "agent.done"
    then parse_done payload
    else if has_type kind "session.closed"
    then parse_closed payload
    else if has_type kind "error"
    then parse_error payload
    else err type_required

unfoldable pub parse_session_agent_event : Json → Result ParseError SessionAgentEvent
unfolding parse_payload get_field
parse_session_agent_event value = do
  event ← require_object (some value) type_required
  payload ← require_object (get_field "payload" event) payload_required
  parse_payload (get_field "type" event) payload
