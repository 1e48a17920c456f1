-- ===== src/Webhooks.antt =====
-- The webhooks of pull requests: apps/api/src/github-webhooks (github-pull-request-event.ts and
-- github-webhooks.service.ts), and `updateStatus` of
-- apps/api/src/persistence/adapters/review-requests.repository.ts. A number in JSON is an integer
-- here, and a date the number of its milliseconds.
pub mod Order
mod Tests
use pair_dock.Prelude.{
  ℕ, String, Bool, true, false, not, ◌&&◌, ◌||◌, Option, none, some, List, [], ◌∷◌, map, ◌==◌, any,
  Result, ok, err, ◌>>=◌, guard, ltb, leb, eqb, truthy, if◌then◌else◌,
}
use pair_dock.Prelude.Decimal.{ℤ, pos, negsuc, to_string}
use pair_dock.Session.Parse.{Json, Fields, text, number, bool, object, get_field}

pub data ReviewStatus : Type 0 where
  draft open_status closed merged : ReviewStatus

pub record StatusUpdate : Type 0 where
  pub provider_connection_id : String
  pub repo_full_name : String
  pub review_request_number : ℕ
  pub review_request_url : String
  pub status : ReviewStatus
  pub status_updated_at : ℕ

-- A row of pull requests, with the repository and the connection of its project.
pub record PullRequest : Type 0 where
  pub session_id : String
  pub github_pr_number : Option ℕ
  pub github_pr_url : Option String
  pub status : String
  pub status_updated_at : Option ℕ
  pub repo_full_name : String
  pub provider_connection_id : Option String

pub data WebhookError : Type 0 where
  object_required text_required bool_required number_required identifier_required :
      (field_name : String) → WebhookError
  date_required url_required : (field_name : String) → WebhookError
  numbers_differ state_unknown : WebhookError

-- What the parser asks of texts: whether trimming leaves nothing, whether it is an HTTP URL, and the
-- time of a date.
pub record Texts : Type 0 where
  pub is_blank : String → Bool
  pub is_http_url : String → Bool
  pub read_date : String → Option ℕ

abbrev pub max_safe_integer : ℕ
max_safe_integer = 9007199254740991

abbrev pub require_object : Option Json → String → Result WebhookError Fields
require_object (some (object fields)) name = ok fields
require_object _ name = err (object_required name)

abbrev pub require_boolean : Option Json → String → Result WebhookError Bool
require_boolean (some (bool b)) name = ok b
require_boolean _ name = err (bool_required name)

abbrev pub require_positive_integer : Option Json → String → Result WebhookError ℕ
require_positive_integer (some (number (pos n))) name =
    if ltb 0 n && leb n max_safe_integer then ok n else err (number_required name)
require_positive_integer _ name = err (number_required name)

-- `typeof value === 'string'`.
abbrev pub is_text : Option Json → Bool
is_text (some (text _)) = true
is_text _ = false

abbrev pub status_text : ReviewStatus → String
status_text draft = "draft"
status_text open_status = "open"
status_text closed = "closed"
status_text merged = "merged"

module _ (T : Texts) where
  abbrev pub require_non_empty_string : Option Json → String → Result WebhookError String
  require_non_empty_string (some (text s)) name =
      if T.is_blank s then err (text_required name) else ok s
  require_non_empty_string _ name = err (text_required name)

  abbrev pub require_identifier : Option Json → String → Result WebhookError String
  require_identifier (some (text s)) name =
      if T.is_blank s then err (identifier_required name) else ok s
  require_identifier (some (number n)) name = ok (to_string n)
  require_identifier _ name = err (identifier_required name)

  abbrev pub require_date : Option Json → String → Result WebhookError ℕ
  require_date value name = require_non_empty_string value name >>= λ s. elim (T.read_date s) [
    | none ↦ err (date_required name)
    | some date ↦ ok date
  ]

  abbrev pub require_url : Option Json → String → Result WebhookError String
  require_url value name = require_non_empty_string value name >>= λ s.
      if T.is_http_url s then ok s else err (url_required name)

  -- The status by the three fields and the date of the merge.
  abbrev pub status_of : String → Bool → Bool → Bool → Result WebhookError ReviewStatus
  status_of state is_draft is_merged has_merge_date =
      if is_merged || has_merge_date
      then ok merged
      else (if state == "closed"
          then ok closed
          else (if state == "open"
              then ok (if is_draft then draft else open_status)
              else err state_unknown))

  unfoldable pub resolve_review_request_status : Fields → Result WebhookError ReviewStatus
  resolve_review_request_status pull_request = do
    state ← require_non_empty_string (get_field "state" pull_request) "pull_request.state"
    is_draft ← require_boolean (get_field "draft" pull_request) "pull_request.draft"
    is_merged ← require_boolean (get_field "merged" pull_request) "pull_request.merged"
    status_of state is_draft is_merged (is_text (get_field "merged_at" pull_request))

  unfoldable pub parse_github_pull_request_event : Json → Result WebhookError StatusUpdate
  unfolding resolve_review_request_status
  parse_github_pull_request_event payload = do
    root ← require_object (some payload) "payload"
    installation ← require_object (get_field "installation" root) "installation"
    repository ← require_object (get_field "repository" root) "repository"
    pull_request ← require_object (get_field "pull_request" root) "pull_request"
    n ← require_positive_integer (get_field "number" root) "number"
    m ← require_positive_integer (get_field "number" pull_request) "pull_request.number"
    _ ← guard (eqb n m) numbers_differ
    connection ← require_identifier (get_field "id" installation) "installation.id"
    repo ← require_non_empty_string (get_field "full_name" repository) "repository.full_name"
    url ← require_url (get_field "html_url" pull_request) "pull_request.html_url"
    status ← resolve_review_request_status pull_request
    updated_at ← require_date (get_field "updated_at" pull_request) "pull_request.updated_at"
    ok (record {
      provider_connection_id = connection;
      repo_full_name = repo;
      review_request_number = n;
      review_request_url = url;
      status = status;
      status_updated_at = updated_at;
    })

-- The `where` of `updateMany`: a row of this pull request that no later update has written.
abbrev pub is_number : ℕ → Option ℕ → Bool
is_number n none = false
is_number n (some m) = eqb m n

abbrev pub is_connection : String → Option String → Bool
is_connection c none = false
is_connection c (some d) = d == c

abbrev pub not_later : Option ℕ → ℕ → Bool
not_later none now = true
not_later (some before) now = leb before now

unfoldable pub is_target : StatusUpdate → PullRequest → Bool
is_target u row =
    is_number u.review_request_number row.github_pr_number
    && (row.repo_full_name == u.repo_full_name
        && is_connection u.provider_connection_id row.provider_connection_id)

abbrev pub written : StatusUpdate → PullRequest → PullRequest
written u row = record row {
  github_pr_url = some u.review_request_url;
  status = status_text u.status;
  status_updated_at = some u.status_updated_at;
}

abbrev pub is_written : StatusUpdate → PullRequest → Bool
is_written u row = is_target u row && not_later row.status_updated_at u.status_updated_at

unfoldable pub update_row : StatusUpdate → PullRequest → PullRequest
unfolding is_target
update_row u row = if is_written u row then written u row else row

-- `updateStatus`: the rows, and whether one was written.
unfoldable pub update_status : StatusUpdate → List PullRequest → List PullRequest × Bool
unfolding update_row
update_status u rows = (map (update_row u) rows, any (is_written u) rows)

-- `handle` of the service; other events are accepted and leave all as it is.
unfoldable pub handle :
    Texts → String → Json → List PullRequest → Result WebhookError (List PullRequest)
unfolding parse_github_pull_request_event update_status
handle T event_name payload rows =
    if event_name == "pull_request"
    then (parse_github_pull_request_event T payload >>= λ update. ok (update_status update rows).0)
    else ok rows
