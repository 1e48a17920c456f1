-- ===== src/Webhooks/Tests.antt =====
-- A webhook of a merged pull request, and two updates that arrive in either order.
use mathlib.Core.List.{Permᴰ, Pairwise, Mem}
use mathlib.Core.List
use mathlib.Core.HLevel.{¬_prop}
use pair_dock.Prelude.{
  ℕ, String, true, false, none, some, [], ◌∷◌, ◌≡◌, refl, ok, err, arith, ◌==◌, if◌then◌else◌,
}
use pair_dock.Prelude.Decimal.{pos, to_string}
use pair_dock.Session.Parse.{Json, no_fields, field, text, number, bool, object, get_field}
use pair_dock.Webhooks.{
  ReviewStatus, StatusUpdate, PullRequest, Texts, merged, closed, state_unknown,
  parse_github_pull_request_event, handle,
}
use pair_dock.Webhooks.Order.{Apart, update_all, update_all-perm}

abbrev texts : Texts
texts = record {
  is_blank = λ s. s == "";
  is_http_url = λ s. true;
  read_date = λ s. if s == "" then none else some 5;
}

abbrev payload : String → Json
payload state = object (
    field "number" (number (pos 7)) (
      field "installation" (object (field "id" (number (pos 12)) no_fields)) (
        field "repository" (object (field "full_name" (text "o/r") no_fields)) (
          field "pull_request"
            (object (
              field "number" (number (pos 7)) (
                field "html_url" (text "https://h") (
                  field "state" (text state) (
                    field "draft" (bool false) (
                      field "merged" (bool (state == "merged"))
                        (field "updated_at" (text "d") no_fields)))))))
            no_fields))))

abbrev update : ReviewStatus → ℕ → StatusUpdate
update status now = record {
  provider_connection_id = "12";
  repo_full_name = "o/r";
  review_request_number = 7;
  review_request_url = "https://h";
  status = status;
  status_updated_at = now;
}

abbrev row : PullRequest
row = record {
  session_id = "s1";
  github_pr_number = some 7;
  github_pr_url = none;
  status = "draft";
  status_updated_at = none;
  repo_full_name = "o/r";
  provider_connection_id = some "12";
}

parses :
    (parse_github_pull_request_event texts (payload "merged") ≡ ok (update merged 5))
    × (parse_github_pull_request_event texts (payload "closed") ≡ ok (update closed 5))
    × (parse_github_pull_request_event texts (payload "locked") ≡ err state_unknown)
    × (handle texts "push" (payload "closed") (row ∷ []) ≡ ok (row ∷ []))
unfolding handle get_field to_string
parses = (refl, refl, refl, refl)

update_all-perm_example :
    update_all (update closed 4 ∷ update merged 5 ∷ []) (row ∷ [])
    ≡ update_all (update merged 5 ∷ update closed 4 ∷ []) (row ∷ [])
update_all-perm_example =
    update_all-perm (update closed 4 ∷ update merged 5 ∷ [])
      (update merged 5 ∷ update closed 4 ∷ []) (row ∷ []) (Permᴰ.swap refl refl)
      ((List.Pairwise-pair {R = Apart} (λ u v. ¬_prop) {a = update closed 4}
          {b = update merged 5}).1
        (λ same. omega arith))
