-- ===== src/Session/Parse/RoundTrip.antt =====
-- What the parser reads is an event that reads back from its own JSON.
use pair_dock.Prelude.{
  String, Bool, Option, none, some, ◌≡◌, refl, ap, ◌∙◌, subst, ◌>>=◌, truthy, ok, first_returns,
  inl, inr, Bool-cases, arith,
}
use pair_dock.Prelude.Decimal.{ℤ}
use pair_dock.Domain.{ProgressStatus}
use pair_dock.Domain.Status.{
  connecting, creating_worktree, starting_docker, starting_preview, running_agent, running_checks,
  awaiting_validation, creating_review_request, created_review_request,
}
use pair_dock.Session.Machine.{
  SessionAgentEvent, progress, became_ready, recovered, done, session_closed, error,
}
use pair_dock.Session.Parse.{
  progress_message_invalid, exit_code_required, changes_invalid, preview_url_required,
  cleaned_required, error_invalid, type_required, payload_required, Json, bool, number, text,
  object, Fields, no_fields, field, get_field, status_text, parse_status, keep_message,
  require_text, require_bool, require_number, optional_text, optional_bool, has_type,
  parse_progress, parse_ready, parse_done, parse_closed, parse_error, parse_payload,
  parse_session_agent_event, require_object,
}

abbrev optional_field : String → Option Json → Fields → Fields
optional_field key none rest = rest
optional_field key (some v) rest = field key v rest

abbrev text_json : Option String → Option Json
text_json none = none
text_json (some s) = some (text s)

abbrev bool_json : Option Bool → Option Json
bool_json none = none
bool_json (some b) = some (bool b)

abbrev envelope : String → Fields → Json
envelope kind payload =
    object (field "type" (text kind) (field "payload" (object payload) no_fields))

-- The JSON of an event; a resume status has no place in it.
pub encode : SessionAgentEvent → Json
encode (progress status message) = envelope "session.progress" (
    field "status" (text (status_text status))
      (optional_field "message" (text_json message) no_fields))
encode (became_ready url) = envelope "session.ready" (field "previewUrl" (text url) no_fields)
encode (recovered url) = envelope "session.recovered" (field "previewUrl" (text url) no_fields)
encode (done code changes resume) = envelope "agent.done" (
    field "exitCode" (number code) (optional_field "changesDetected" (bool_json changes) no_fields))
encode (session_closed cleaned) =
    envelope "session.closed" (field "cleaned" (bool cleaned) no_fields)
encode (error message retryable) =
    envelope "error" (field "message" (text message) (field "retryable" (bool retryable) no_fields))

-- An event that the API accepts from a client: no recovery, no resume status, no empty message.
pub data IsPlain : SessionAgentEvent → Type 0 where
  plain_progress :
      (status : ProgressStatus) (message : Option String)
      → keep_message message ≡ message
      → IsPlain (progress status message)
  plain_ready : (url : String) → IsPlain (became_ready url)
  plain_done : (code : ℤ) (changes : Option Bool) → IsPlain (done code changes none)
  plain_closed : (cleaned : Bool) → IsPlain (session_closed cleaned)
  plain_error : (message : String) (retryable : Bool) → IsPlain (error message retryable)

parse-status_text :
    (status : ProgressStatus) → parse_status (some (text (status_text status))) ≡ ok status
parse-status_text connecting = refl
parse-status_text creating_worktree = refl
parse-status_text starting_docker = refl
parse-status_text starting_preview = refl
parse-status_text running_agent = refl
parse-status_text running_checks = refl
parse-status_text awaiting_validation = refl
parse-status_text creating_review_request = refl
parse-status_text created_review_request = refl

parse-encode : (e : SessionAgentEvent) → IsPlain e → parse_session_agent_event (encode e) ≡ ok e
unfolding parse_session_agent_event parse_payload parse_progress parse_ready parse_done parse_closed
    parse_error get_field encode
parse-encode e (plain_progress status none kept) =
    ap (λ s. s >>= λ p. ok (progress p none)) (parse-status_text status)
parse-encode e (plain_progress status (some m) kept) =
    ap (λ s. s >>= λ p. ok (progress p (keep_message (some m)))) (parse-status_text status)
    ∙ ap (λ k. ok (progress status k)) kept
parse-encode e (plain_ready url) = refl
parse-encode e (plain_done code none) = refl
parse-encode e (plain_done code (some b)) = refl
parse-encode e (plain_closed cleaned) = refl
parse-encode e (plain_error message retryable) = refl

keep_twice : (message : Option String) → keep_message (keep_message message) ≡ keep_message message
keep_twice none = refl
keep_twice (some m) = elim (Bool-cases (truthy m)) [ inl h ↦ rw (h, h) refl | inr h ↦ rw h refl ]

module _ (payload : Fields) (e : SessionAgentEvent) where
  progress-IsPlain : parse_progress payload ≡ ok e → IsPlain e
  unfolding parse_progress
  progress-IsPlain h =
      let (status, read, more) = first_returns (parse_status (get_field "status" payload)) _ h in
      let (message, known, last) =
        first_returns (optional_text (get_field "message" payload) progress_message_invalid) _
          more in
      subst IsPlain (ground arith)
        (plain_progress status (keep_message message) (keep_twice message))

  ready-IsPlain : parse_ready payload ≡ ok e → IsPlain e
  unfolding parse_ready
  ready-IsPlain h =
      let (url, read, last) =
        first_returns (require_text (get_field "previewUrl" payload) preview_url_required) _ h in
      subst IsPlain (ground arith) (plain_ready url)

  done-IsPlain : parse_done payload ≡ ok e → IsPlain e
  unfolding parse_done
  done-IsPlain h =
      let (code, read, more) =
        first_returns (require_number (get_field "exitCode" payload) exit_code_required) _ h in
      let (changes, known, last) =
        first_returns (optional_bool (get_field "changesDetected" payload) changes_invalid) _
          more in
      subst IsPlain (ground arith) (plain_done code changes)

  closed-IsPlain : parse_closed payload ≡ ok e → IsPlain e
  unfolding parse_closed
  closed-IsPlain h =
      let (cleaned, read, last) =
        first_returns (require_bool (get_field "cleaned" payload) cleaned_required) _ h in
      subst IsPlain (ground arith) (plain_closed cleaned)

  error-IsPlain : parse_error payload ≡ ok e → IsPlain e
  unfolding parse_error
  error-IsPlain h =
      let (message, read, more) =
        first_returns (require_text (get_field "message" payload) error_invalid) _ h in
      let (retryable, known, last) =
        first_returns (require_bool (get_field "retryable" payload) error_invalid) _ more in
      subst IsPlain (ground arith) (plain_error message retryable)

  payload-IsPlain : (kind : Option Json) → parse_payload kind payload ≡ ok e → IsPlain e
  unfolding parse_payload
  payload-IsPlain kind h = elim (Bool-cases (has_type kind "session.progress")) [
    | inl a ↦ progress-IsPlain (ground (arith, h, a))
    | inr a ↦ elim (Bool-cases (has_type kind "session.ready")) [
      | inl b ↦ ready-IsPlain (ground (arith, h, a, b))
      | inr b ↦ elim (Bool-cases (has_type kind "agent.done")) [
        | inl c ↦ done-IsPlain (ground (arith, h, a, b, c))
        | inr c ↦ elim (Bool-cases (has_type kind "session.closed")) [
          | inl d ↦ closed-IsPlain (ground (arith, h, a, b, c, d))
          | inr d ↦ elim (Bool-cases (has_type kind "error")) [
            | inl f ↦ error-IsPlain (ground (arith, h, a, b, c, d, f))
            | inr f ↦ absurd (ground (arith, h, a, b, c, d, f))
          ]
        ]
      ]
    ]
  ]

event-IsPlain :
    (value : Json) (e : SessionAgentEvent) → parse_session_agent_event value ≡ ok e → IsPlain e
unfolding parse_session_agent_event
event-IsPlain value e h =
    let (event, is_object, more) = first_returns (require_object (some value) type_required) _ h in
    let (payload, known, last) =
      first_returns (require_object (get_field "payload" event) payload_required) _ more in
    payload-IsPlain payload e (get_field "type" event) last

-- Whatever JSON a client sends, an event that is read from it is plain: no recovery, no resume
-- status and no empty message; and every plain event is read back from its own encoding.
pub parse-IsPlain :
    (e : SessionAgentEvent)
    → (((value : Json) → parse_session_agent_event value ≡ ok e → IsPlain e)
        × (IsPlain e → parse_session_agent_event (encode e) ≡ ok e))
parse-IsPlain e = (λ value h. event-IsPlain value e h, parse-encode e)
