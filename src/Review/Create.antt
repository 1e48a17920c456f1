-- ===== src/Review/Create.antt =====
-- apps/api/src/review-requests/create-review-request.use-case.ts. The host keeps, newest first, the
-- calls that have returned, and what a clean-up has removed.
pub mod Laws
mod Tests
use Prim.Native.Char.{code}
use Prim.Native.String.{slice}
use pair_dock.Prelude.{
  ℕ, suc, ◌-◌, String, Bool, true, false, ◌&&◌, ◌||◌, Option, none, some, List, [], ◌∷◌, map, ◌==◌,
  ◌<>◌, join, eqb, truthy, if◌then◌else◌, Result, ok, err, guard, ◌>>=◌, ◌>>◌, require,
}
use pair_dock.Prelude.Actions as Actions
use pair_dock.Prelude.Actions.{Action}
use pair_dock.Prelude.Decimal.{pos, to_string}
use pair_dock.Prelude.Steps.{Host, noting, removing}
use pair_dock.Domain.{
  Identity, UserKind, developer, Project, Session, SessionMember, SourceControlConnection,
  ValidationRun,
}
use pair_dock.Domain.Status.{review_request_created}
use pair_dock.Review.Policy.{Reason, failure_reasons}
use pair_dock.Session.Events.Store.{StatusUpdate}
use pair_dock.Session.Attachments.{Removal, remove}
use pair_dock.Session.Prompts.{Attachment, attachment_id}

pub data CommitType : Type 0 where
  feat fix style : CommitType

pub record ReviewInput : Type 0 where
  pub commit_type : CommitType
  pub title : String
  pub description : String

-- The argument of `createReviewRequest`.
pub record OpenInput : Type 0 where
  pub project_id : String
  pub session_id : String
  pub repo_full_name : String
  pub source_control_connection_id : String
  pub provider_connection_id : String
  pub account_login : String
  pub title : String
  pub body : String
  pub branch_name : String
  pub base_branch : String

pub record Opened : Type 0 where
  pub number : Option ℕ
  pub url : String

-- The argument of `reviewRequests.create`, whose status is 'open'.
pub record ReviewRow : Type 0 where
  pub session_id : String
  pub number : Option ℕ
  pub url : String
  pub status : String

pub data ReviewStep : Type 0 where
  stored : List Attachment → ReviewStep
  pushed : (session_id message : String) → ReviewStep
  opened : OpenInput → Opened → ReviewStep
  recorded : ReviewRow → StatusUpdate → ReviewStep
  removed not_removed : Removal Attachment → ReviewStep

pub data ReviewError (E : Type 0) : Type 0 where
  session_not_found project_not_found connection_not_found not_entitled no_title : ReviewError E
  not_ready : List Reason → ReviewError E
  thrown : E → ReviewError E

-- The repositories, the attachments, the router, the source control, and what the commit message
-- asks of a title: `words` folds it to letters and digits between single blanks.
pub record ReviewPorts (W File E : Type 0) : Type 0 where
  pub find_session : String → W → Option Session
  pub find_project : String → W → Option Project
  pub find_connection : String → W → Option SourceControlConnection
  pub find_member : String → String → W → Option SessionMember
  pub find_latest : String → W → Option ValidationRun
  pub create_attachments : String → String → List File → W → W × Result E (List Attachment)
  pub delete_object : Attachment → W → W × Result E (Unit {0})
  pub delete_by_ids : List String → W → W × Result E (Unit {0})
  pub push_branch : String → String → W → W × Result E (Unit {0})
  pub open_request : OpenInput → W → W × Result E Opened
  pub record_request : ReviewRow → StatusUpdate → W → W × Result E (Unit {0})
  pub public_url : Attachment → String
  pub words : String → String
  pub cut : ℕ → String → String
  pub trim : String → String
  pub length : String → ℕ

-- What the guards have found.
pub record Ready : Type 0 where
  pub session : Session
  pub project : Project
  pub connection : SourceControlConnection
  pub commit_message : String

abbrev pub is_developer : UserKind → Bool
is_developer developer = true
is_developer _ = false

abbrev pub has_pm_role : Option SessionMember → Bool
has_pm_role none = false
has_pm_role (some member) = member.role == "pm"

-- `assertActorCanCreateReviewRequest`.
abbrev pub is_entitled : Identity → Project → Option SessionMember → Bool
is_entitled actor project member =
    (is_developer actor.kind && actor.id == project.owner_user_id) || has_pm_role member

abbrev pub no_reason : {E : Type 0} → List Reason → Result (ReviewError E) (Unit {0})
no_reason [] = ok tt
no_reason (reason ∷ reasons) = err (not_ready (reason ∷ reasons))

abbrev pub branch_name_of : Session → String
branch_name_of session = elim session.branch_name [
  | none ↦ "pairdock/session-" <> slice session.id 0 8
  | some name ↦ name
]

abbrev escaped : ℕ → String → String
escaped c s = if eqb c 92 then "\\" <> s else if eqb c 91 || eqb c 93 then "\\" <> s else s

-- `escapeMarkdownLabel`: the three replacements, a character at a time.
unfoldable pub escape_markdown_label : String → String
escape_markdown_label String.[] = ""
escape_markdown_label (String.◌∷◌ c s) =
    let rest = escape_markdown_label s in escaped (code c) (String.◌∷◌ c rest)

-- The captures from this number on, with their addresses.
unfoldable pub captures : ℕ → List (String × String) → List String
unfolding escape_markdown_label
captures n [] = []
captures n ((file_name, url) ∷ rest) =
    ("!["
      <> escape_markdown_label
          (if truthy file_name then file_name else "Capture " <> to_string (pos (suc n)))
      <> "]("
      <> url
      <> ")")
    ∷ captures (suc n) rest

abbrev pub append_screenshots : String → List (String × String) → String
append_screenshots description [] = description
append_screenshots description (first ∷ rest) =
    description <> "\n\n## Captures\n\n" <> join "\n\n" (captures 0 (first ∷ rest))

-- `${type}: `.
abbrev pub commit_prefix : CommitType → String
commit_prefix feat = "feat: "
commit_prefix fix = "fix: "
commit_prefix style = "style: "

abbrev pub require_title : {E : Type 0} → String → String → Result (ReviewError E) String
require_title prefix title = if truthy title then ok (prefix <> title) else err no_title

abbrev pub ReviewAction : Type 0 → Type 0 → Type 0 → Type 0
ReviewAction W E A = Action (Host W ReviewStep) (ReviewError E) A

abbrev pub review_row : String → Opened → ReviewRow
review_row session_id answer = record {
  session_id = session_id;
  number = answer.number;
  url = answer.url;
  status = "open";
}

abbrev pub created_update : String → Session → StatusUpdate
created_update session_id session = record {
  id = session_id;
  status = review_request_created;
  last_error = some none;
  preview_url = some session.preview_url;
  closed_at = some session.closed_at;
}

module _ {W File E : Type 0} (P : ReviewPorts W File E) where
  unfoldable pub build_conventional_commit_message :
      CommitType → String → Result (ReviewError E) String
  build_conventional_commit_message commit_type title =
      let prefix = commit_prefix commit_type in
      require_title prefix (P.trim (P.cut (72 - P.length prefix) (P.words title)))

  -- The guards of `create`, in their order.
  unfoldable pub check_request : String → Identity → ReviewInput → W → Result (ReviewError E) Ready
  check_request session_id actor input world = do
    session ← require (P.find_session session_id world) session_not_found
    project ← require (P.find_project session.project_id world) project_not_found
    connection ←
        require (P.find_connection project.source_control_connection_id world) connection_not_found
    guard (is_entitled actor project (P.find_member session_id actor.id world)) not_entitled
    no_reason (failure_reasons (P.find_latest session_id world) session.status)
    message ← build_conventional_commit_message input.commit_type input.title
    ok (record {
      session = session;
      project = project;
      connection = connection;
      commit_message = message;
    })

  abbrev pub open_input : Ready → String → ReviewInput → List Attachment → OpenInput
  open_input ready session_id input attachments = record {
    project_id = ready.project.id;
    session_id = ready.session.id;
    repo_full_name = ready.project.repo_full_name;
    source_control_connection_id = ready.connection.id;
    provider_connection_id = ready.connection.provider_connection_id;
    account_login = ready.connection.account_login;
    title = input.title;
    body =
        append_screenshots input.description
          (map (λ a. (a.original_name, P.public_url a)) attachments);
    branch_name = branch_name_of ready.session;
    base_branch = ready.project.default_branch;
  }

  abbrev pub store_files : String → Identity → List File → ReviewAction W E (List Attachment)
  store_files session_id actor files host =
      noting thrown stored host.steps (P.create_attachments session_id actor.id files host.world)

  abbrev pub push_changes : String → String → ReviewAction W E (Unit {0})
  push_changes session_id message host =
      noting thrown (λ _. pushed session_id message) host.steps
        (P.push_branch session_id message host.world)

  abbrev pub open_review : OpenInput → ReviewAction W E Opened
  open_review input host = noting thrown (opened input) host.steps (P.open_request input host.world)

  -- The `catch` block around the push and the creation.
  abbrev pub or_withdraw :
      List Attachment
      → Host W ReviewStep × Result (ReviewError E) Opened
      → Host W ReviewStep × Result (ReviewError E) Opened
  or_withdraw attachments (host, ok answer) = (host, ok answer)
  or_withdraw attachments (host, err e) =
      removing thrown removed not_removed e host.steps
        (remove P.delete_object P.delete_by_ids attachment_id attachments host.world)

  -- The unit of work, with the row of the review request and the status of the session.
  abbrev pub record_opened : String → Session → Opened → ReviewAction W E Opened
  record_opened session_id session answer host =
      Actions.continue
        (noting thrown
          (λ _. recorded (review_row session_id answer) (created_update session_id session))
          host.steps
          (P.record_request (review_row session_id answer) (created_update session_id session)
            host.world))
        (λ _ host. (host, ok answer))

  abbrev pub publish : Ready → String → ReviewInput → List Attachment → ReviewAction W E Opened
  publish ready session_id input attachments host = or_withdraw attachments (
      Actions.continue (push_changes session_id ready.commit_message host)
        (λ _. open_review (open_input ready session_id input attachments)))

  abbrev pub perform : Ready → String → Identity → ReviewInput → List File → ReviewAction W E Opened
  perform ready session_id actor input files host =
      Actions.continue (store_files session_id actor files host) (λ attachments host.
        Actions.continue (publish ready session_id input attachments host)
          (record_opened session_id ready.session))

  abbrev pub perform_checked :
      Result (ReviewError E) Ready
      → String
      → Identity
      → ReviewInput
      → List File
      → ReviewAction W E Opened
  perform_checked (err e) session_id actor input files host = (host, err e)
  perform_checked (ok ready) session_id actor input files host =
      perform ready session_id actor input files host

  -- `create`, which answers the number and the address.
  unfoldable pub create_review_request :
      String → Identity → ReviewInput → List File → ReviewAction W E Opened
  unfolding check_request
  create_review_request session_id actor input files host =
      perform_checked (check_request session_id actor input host.world) session_id actor input files
        host
