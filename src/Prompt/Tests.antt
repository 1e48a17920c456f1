-- ===== src/Prompt/Tests.antt =====
-- A prompt whose first attempt breaks the build and whose repair mends it.
use pair_dock.Prelude.{
  ℕ, suc, ltb, String, true, false, Option, none, [], ◌∷◌, ◌≡◌, ◌≤◌, refl, ok, if◌then◌else◌,
}
use pair_dock.Prelude.Decimal.{pos, decimal}
use pair_dock.Domain.Status.{ready, is_promptable}
use pair_dock.Protocol.Checks.{CheckStatus, passed, failed, CheckResult, ChecksResult}
use pair_dock.Prompt.Effects.{finished, Dependencies}
use pair_dock.Prompt.Runner.{PromptExecutionInput, run}
use pair_dock.Prompt.Api.{Api, replay}
use pair_dock.Prompt.Protocol.{beginning, run-promptable}
use pair_dock.Prompt.Costs.{tally}
use pair_dock.Domain.{Session}
use pair_dock.Domain.Status.{review_request_creating}
use pair_dock.Session.Machine.{recovered, apply_agent_event}
use pair_dock.Prompt.Restart.{run-after_recovery}
use pair_dock.Prompt.Bounds.{is_harness_run, is_checks_run, run_bounds}

abbrev result : CheckStatus → CheckResult
result status = record { status = status; command = none; logs = none }

abbrev checks : CheckStatus → ChecksResult
checks build = record {
  all_ok = false;
  build = result build;
  tests = result passed;
  lint = result passed;
  preview = result passed;
}

-- The world counts the runs of the agent.
abbrev desk : Dependencies
desk = record {
  World = ℕ;
  run_prompt = λ i w. (suc w, finished (pos 0) ∷ [], none);
  cancel = λ i w. (w, ok tt);
  snapshot = λ i w. (w, ok (decimal w));
  collect = λ i w. (w, ok (record { diff = "d"; changed_files = []; fingerprint = decimal w }));
  download = λ i files w. (w, ok files);
  cleanup = λ i w. (w, ok tt);
  run_checks = λ i w. (w, ok (checks (if ltb w 2 then failed else passed)));
  publish = λ e w. (w, ok tt);
  redact = λ s. s;
  build_repair_prompt = λ c n. n;
}

abbrev input : PromptExecutionInput
input = record {
  session_id = "s1";
  project_key = "app";
  prompt = "Make it blue";
  attachments = [];
  model_id = "gpt";
  reasoning_effort = none;
  worktree_path = "/w";
  preview_url = none;
}

abbrev start : Api
start = record {
  session = record {
    id = "s1";
    project_id = "p1";
    created_by_user_id = "dev";
    status = ready;
    model_id = "gpt";
    reasoning_effort = "medium";
    branch_name = none;
    worktree_ref = none;
    preview_url = none;
    last_error = none;
    created_at = 1;
    closed_at = none;
  };
  latest = none;
}

abbrev no_line : String → Option String
no_line logs = none

run-promptable_example :
    (api : Api) × (replay no_line 9 start (run desk input (beginning 0)).0.effects ≡ ok api)
    × ((run desk input (beginning 0)).1 ≡ ok tt → is_promptable api.session.status ≡ true)
run-promptable_example = run-promptable no_line 9 start desk input 0 refl

-- The restart came while the review request was being created.
abbrev interrupted : Session
interrupted = record start.session { status = review_request_creating }

run-after_recovery_example :
    (t : Session) × (apply_agent_event 9 interrupted (recovered "http://shop") ≡ ok t)
    × (is_promptable t.status ≡ true)
    × (api : Api) × (replay no_line 9
          (record { session = t; latest = none })
          (run desk input (beginning 0)).0.effects
        ≡ ok api)
    × ((run desk input (beginning 0)).1 ≡ ok tt → is_promptable api.session.status ≡ true)
run-after_recovery_example =
    run-after_recovery no_line 9 interrupted none "http://shop" desk input 0 refl

run_bounds_example :
    (tally is_harness_run (run desk input (beginning 0)).0.effects ≤ 3)
    × (tally is_checks_run (run desk input (beginning 0)).0.effects ≤ 3)
run_bounds_example = run_bounds desk input 0
