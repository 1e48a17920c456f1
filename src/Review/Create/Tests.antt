-- ===== src/Review/Create/Tests.antt =====
-- A PM asks for a review request; one whose answer cannot be recorded, and texts.
use pair_dock.Prelude.{String, none, some, List, [], ◌∷◌, ◌≡◌, refl, ok, err, map}
use pair_dock.Prelude.Decimal.{to_string}
use pair_dock.Prelude.Steps.{Host}
use pair_dock.Domain.{Identity, pm, Session, SessionStatus, ValidationRun}
use pair_dock.Domain.Samples.{shop, session_in}
use pair_dock.Domain.Status.{awaiting_pm_validation, agent_running}
use pair_dock.Review.Policy.{failure_reasons, not_awaiting}
use pair_dock.Review.Create.{
  ReviewInput, review_row, created_update, fix, Opened, OpenInput, ReviewStep, stored, pushed,
  opened, recorded, not_ready, thrown, no_title, ReviewPorts, append_screenshots, captures,
  escape_markdown_label, build_conventional_commit_message, check_request, create_review_request,
}
use pair_dock.Session.Prompts.{Attachment}

abbrev run : ValidationRun
run = record {
  id = "v1";
  session_id = "s1";
  status = "passed";
  build_status = some "passed";
  test_status = some "passed";
  lint_status = some "passed";
  preview_status = some "passed";
  logs_ref = none;
  created_at = 3;
}

abbrev screenshot : String → Attachment
screenshot name = record {
  id = "a1";
  original_name = name;
  mime_type = "image/png";
  byte_size = 10;
}

abbrev answer : Opened
answer = record { number = some 7; url = "https://pr/7" }

abbrev session : SessionStatus → Session
session status = record (session_in status) { id = "0123456789" }

-- The world is the status of the session.
abbrev ports : ReviewPorts SessionStatus String String
ports = record {
  find_session = λ id status. some (session status);
  find_project = λ id status. some shop;
  find_connection = λ id status. some (record {
    id = "c1";
    owner_user_id = "ada";
    provider_connection_id = "77";
    account_login = "ada";
    created_at = 1;
  });
  find_member =
      λ id user status. some (record { id = "m1"; session_id = id; user_id = user; role = "pm" });
  find_latest = λ id status. some run;
  create_attachments = λ id user files status. (status, ok (map screenshot files));
  delete_object = λ a status. (status, ok tt);
  delete_by_ids = λ ids status. (status, ok tt);
  push_branch = λ id message status. (status, ok tt);
  open_request = λ input status. (status, ok answer);
  record_request = λ row update status. (status, ok tt);
  public_url = λ a. "https://files/a1";
  words = λ title. title;
  cut = λ n title. title;
  trim = λ title. title;
  length = λ text. 5;
}

abbrev unrecorded_ports : ReviewPorts SessionStatus String String
unrecorded_ports = record ports {
  record_request = λ row update status. (status, err "no database");
}

abbrev actor : Identity
actor = record { id = "pia"; email = "p@b"; display_name = none; kind = pm }

abbrev input : ReviewInput
input = record { commit_type = fix; title = "blue button"; description = "Blue." }

abbrev host : SessionStatus → Host SessionStatus ReviewStep
host status = record { world = status; steps = [] }

abbrev one : List Attachment
one = screenshot "a.png" ∷ []

abbrev opening : OpenInput
opening = record {
  project_id = "p1";
  session_id = "0123456789";
  repo_full_name = "ada/shop";
  source_control_connection_id = "c1";
  provider_connection_id = "77";
  account_login = "ada";
  title = "blue button";
  body = "Blue.\n\n## Captures\n\n![a.png](https://files/a1)";
  branch_name = "pairdock/session-01234567";
  base_branch = "main";
}

texts :
    (append_screenshots "D" (("x[1]", "u") ∷ ("", "v") ∷ [])
      ≡ "D\n\n## Captures\n\n![x\\[1\\]](u)\n\n![Capture 2](v)")
    × (build_conventional_commit_message ports fix "" ≡ err no_title)
unfolding captures escape_markdown_label build_conventional_commit_message to_string
texts = (refl, refl)

done :
    (create_review_request ports "s1" actor input
      ("a.png" ∷ [])
      (host awaiting_pm_validation)).0.steps
    ≡ recorded (review_row "s1" answer) (created_update "s1" (session awaiting_pm_validation))
      ∷ opened opening answer
      ∷ pushed "s1" "fix: blue button"
      ∷ stored one
      ∷ []
unfolding create_review_request check_request failure_reasons build_conventional_commit_message
    captures escape_markdown_label
done = refl

refused :
    create_review_request ports "s1" actor input [] (host agent_running)
    ≡ (host agent_running, err (not_ready (not_awaiting ∷ [])))
unfolding create_review_request check_request failure_reasons
refused = refl

-- The request is open, and the session does not know of it.
unrecorded_request :
    create_review_request unrecorded_ports "s1" actor input
      ("a.png" ∷ [])
      (host awaiting_pm_validation)
    ≡ (
      record {
        world = awaiting_pm_validation;
        steps = opened opening answer ∷ pushed "s1" "fix: blue button" ∷ stored one ∷ [];
      },
      err (thrown "no database"),
    )
unfolding create_review_request check_request failure_reasons build_conventional_commit_message
    captures escape_markdown_label
unrecorded_request = refl
