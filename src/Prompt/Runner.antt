-- ===== src/Prompt/Runner.antt =====
-- `PromptRunner.run` of packages/local-agent/src/session/prompt-runner.ts. Its logging is left out.
use Prim.Native.String.{◌++◌}
use pair_dock.Prelude.{
  ℕ, zero, suc, String, Bool, true, false, not, ◌||◌, Option, none, some, List, [], ◌∷◌, ◌==◌,
  if◌then◌else◌, truthy, Result, ok, err,
}
use pair_dock.Prelude.Decimal.{ℤ, is_zero, decimal}
use pair_dock.Protocol.Checks.{CheckResult, ChecksResult, is_failed}
use pair_dock.Prompt.Effects.{
  Failure, no_final_done, HarnessEvent, output, finished, RunPromptInput, CollectedDiff,
  PromptEvent, agent_is_running, agent_output, agent_done, git_diff, checks_result, published,
  ran_harness, cancelled_harness, began_checks, downloaded, cleaned_up, Dependencies, State, M,
  note, ◌>>=◌, ◌>>◌, return, throw, call, begun, finally,
}

-- `PromptExecutionInput`.
pub record PromptExecutionInput : Type 0 where
  pub session_id : String
  pub project_key : String
  pub prompt : String
  pub attachments : List String
  pub model_id : String
  pub reasoning_effort : Option String
  pub worktree_path : String
  pub preview_url : Option String

abbrev pub max_validation_repair_attempts : ℕ
max_validation_repair_attempts = 2

abbrev pub effort : Option String → String
effort none = "medium"
effort (some e) = e

-- `hasRepairableCheckFailure`: the preview cannot be repaired by the agent.
abbrev pub has_repairable_check_failure : ChecksResult → Bool
has_repairable_check_failure c =
    is_failed c.build.status || is_failed c.tests.status || is_failed c.lint.status

abbrev pub harness_input : PromptExecutionInput → List String → String → RunPromptInput
harness_input input paths prompt = record {
  session_id = input.session_id;
  project_key = input.project_key;
  prompt = prompt;
  image_paths = paths;
  model_id = input.model_id;
  reasoning_effort = effort input.reasoning_effort;
  worktree_path = input.worktree_path;
}

module _ (D : Dependencies) where
  open D use {World, redact}

  unfoldable pub publish : PromptEvent → M World (Unit {0})
  publish e = call (λ _. published e ∷ []) (D.publish e)

  -- `redactCheckResult` and `redactChecksResult`.
  abbrev pub redact_text : Option String → Option String
  redact_text none = none
  redact_text (some s) = if truthy s then some (redact s) else none

  abbrev pub redact_check_result : CheckResult → CheckResult
  redact_check_result c = record c { command = redact_text c.command; logs = redact_text c.logs }

  unfoldable pub redact_checks_result : ChecksResult → ChecksResult
  redact_checks_result c = record {
    all_ok = c.all_ok;
    build = redact_check_result c.build;
    tests = redact_check_result c.tests;
    lint = redact_check_result c.lint;
    preview = redact_check_result c.preview;
  }

  -- The loop over the harness's events; the last exit code counts.
  unfoldable pub consume : List HarnessEvent → Option ℤ → M World (Option ℤ)
  consume [] code = return code
  consume (output stream kind text ∷ events) code = do
    publish (agent_output stream kind (redact text))
    consume events code
  consume (finished exit_code ∷ events) code = consume events (some exit_code)

  abbrev pub raise : Option Failure → Option ℤ → M World (Option ℤ)
  raise none code = return code
  raise (some e) code = throw e

  -- The `catch` of `runHarness`: the harness is cancelled, and an error of that is swallowed.
  unfoldable pub after_stream :
      String → State World × Result Failure (Option ℤ) → State World × Result Failure ℤ
  after_stream session_id (st, ok (some code)) = (st, ok code)
  after_stream session_id (st, ok none) = (st, err (no_final_done session_id))
  after_stream session_id (st, err e) =
      (note cancelled_harness (record st { world = (D.cancel session_id st.world).0 }), err e)

  unfoldable pub read_stream : List HarnessEvent → Option Failure → M World (Option ℤ)
  read_stream events failure = do code ← consume events none; raise failure code

  -- `runHarness`.
  unfoldable pub run_harness : RunPromptInput → M World ℤ
  run_harness input st =
      let (w, events, failure) = D.run_prompt input st.world in
      after_stream input.session_id
        (read_stream events failure (note (ran_harness input) (record st { world = w })))

  unfoldable pub collect : PromptExecutionInput → M World CollectedDiff
  collect input = call (λ _. []) (D.collect input.worktree_path)

  unfoldable pub redacted : ChecksResult → M World ChecksResult
  redacted checks = return (redact_checks_result checks)

  -- `runChecks`.
  unfoldable pub run_checks : PromptExecutionInput → M World ChecksResult
  run_checks input = do
    checks ← begun began_checks (
        D.run_checks (record {
          project_key = input.project_key;
          preview_url = input.preview_url;
          session_id = input.session_id;
        }))
    redacted checks

  abbrev pub repair_message : ℕ → Option String
  repair_message attempt = some (
      "Repairing failed validation ("
      ++ decimal attempt
      ++ "/"
      ++ decimal max_validation_repair_attempts
      ++ ").")

  -- The `while` loop, by the attempts that are left; `none` is an early return of `run`.
  module _ (input : PromptExecutionInput) (initial : String) (paths : List String) where
    -- A round of the loop, once the agent has ended well; `next_round` is what follows it.
    unfoldable pub after_repair :
        CollectedDiff
        → CollectedDiff
        → ℤ
        → ChecksResult
        → (ChecksResult → M World (Option ChecksResult))
        → M World (Option ChecksResult)
    after_repair before diff code checks next_round = do
      publish (agent_done code (some (not (initial == diff.fingerprint))))
      if initial == diff.fingerprint
          then return none
          else if diff.fingerprint == before.fingerprint
          then return (some checks)
          else (do again ← run_checks input; next_round again)

    unfoldable pub repair : ℕ → ℕ → ChecksResult → M World (Option ChecksResult)
    repair zero attempt checks = return (some checks)
    repair (suc left) attempt checks =
        if has_repairable_check_failure checks
        then (do
          before ← collect input
          publish (agent_is_running (repair_message attempt))
          code ←
              run_harness
                (harness_input input paths (D.build_repair_prompt checks (decimal attempt)))
          if is_zero code
              then (do
                diff ← collect input
                after_repair before diff code checks (repair left (suc attempt)))
              else (do publish (agent_done code none); return none))
        else return (some checks)

    -- What follows the loop.
    unfoldable pub report : Option ChecksResult → M World (Unit {0})
    report none = return tt
    report (some checks) = do
      diff ← collect input
      publish (git_diff diff.diff diff.changed_files)
      publish (checks_result checks)

    -- The block that is protected by `finally`.
    unfoldable pub attempt_prompt : M World (Unit {0})
    attempt_prompt = do
      code ← run_harness (harness_input input paths input.prompt)
      if is_zero code
          then (do
            diff ← collect input
            if initial == diff.fingerprint then publish (agent_done code (some false)) else (do
              publish (agent_done code (some true))
              checks ← run_checks input
              outcome ← repair max_validation_repair_attempts 1 checks
              report outcome))
          else publish (agent_done code none)

  -- The `finally` block: an error of the clean-up is swallowed.
  unfoldable pub clean_up : String → State World → State World
  clean_up session_id st = note cleaned_up (record st { world = (D.cleanup session_id st.world).0 })

  unfoldable pub run : PromptExecutionInput → M World (Unit {0})
  run input = do
    publish (agent_is_running none)
    initial ← call (λ _. []) (D.snapshot input.worktree_path)
    paths ← call (λ _. downloaded ∷ []) (D.download input.session_id input.attachments)
    finally (attempt_prompt input initial paths) (clean_up input.session_id)
