-- ===== src/Prompt/Protocol.antt =====
-- The events of a prompt run, as the API receives them.
use pair_dock.Prelude.{
  ℕ, zero, suc, String, true, false, Option, none, some, List, [], ◌∷◌, ◌==◌, ◌≡◌, refl, ◌⊎◌, inl,
  inr, Result, ok, err, Bool-cases,
}
use pair_dock.Prelude.Decimal.{ℤ, is_zero}
use pair_dock.Domain.Status.{SessionStatus, agent_running, checks_running, failed, is_promptable}
use pair_dock.Protocol.Checks.{ChecksResult}
use pair_dock.Prompt.Effects.{
  Failure, CollectedDiff, agent_is_running, agent_done, git_diff, checks_result, began_checks,
  downloaded, cleaned_up, Dependencies, State, M, ◌>>=◌, return, call, begun, behind,
}
use pair_dock.Prompt.Runner.{
  PromptExecutionInput, has_repairable_check_failure, publish, run_harness, collect, redacted,
  redact_checks_result, after_repair, run_checks, repair_message, repair, report, attempt_prompt,
  clean_up, run, max_validation_repair_attempts,
}
use pair_dock.Prompt.Api.{
  Api, replay, react-running, react-changed, react-unchanged, react-failed, react-checks,
  react-diff,
}
use pair_dock.Prompt.Triples.{
  Holds, Leads, In, if-Leads, >>=-Leads, >>=-Leads_in, return-Leads, call-Leads, begun-Leads,
  ask-Leads, publish-Leads, run_harness-Leads, silent-At,
}

-- Where a returning run leaves the session: it takes prompts again.
abbrev Resting : {A : Type 0} → A → SessionStatus → Type 0
Resting a u = is_promptable u ≡ true

-- Behind the repair loop: with checks to report the API waits for them, and without it rests.
abbrev Checked : Option ChecksResult → SessionStatus → Type 0
Checked none u = is_promptable u ≡ true
Checked (some checks) u = u ≡ checks_running

module _ (useful_line : String → Option String) (now : ℕ) (start : Api) (D : Dependencies) where
  open D use {World}

  abbrev From : {A : Type 0} → SessionStatus → M World A → (A → SessionStatus → Type 0) → Type 0
  From = Leads useful_line now start

  bind :
      {A B : Type 0} (R : B → SessionStatus → Type 0) {s t : SessionStatus} (m : M World A)
      (next : A → M World B)
      → From s m (In t)
      → ((a : A) → From t (next a) R)
      → From s (m >>= next) R
  bind = >>=-Leads_in useful_line now start

  yields :
      {A : Type 0} {s : SessionStatus} (a : A) (Q : A → SessionStatus → Type 0)
      → Q a s
      → From s (return a) Q
  yields = return-Leads useful_line now start

  announce :
      {s : SessionStatus} (message : Option String)
      → (is_promptable s ≡ true) ⊎ (s ≡ checks_running)
      → From s (publish D (agent_is_running message)) (In agent_running)
  announce {s} message may =
      publish-Leads useful_line now start D (λ u. u ≡ agent_running) (agent_is_running message)
        (react-running useful_line now s message may)

  changed :
      (code : ℤ)
      → is_zero code ≡ true
      → From agent_running (publish D (agent_done code (some true))) (In checks_running)
  changed code zero_code =
      publish-Leads useful_line now start D (λ u. u ≡ checks_running) (agent_done code (some true))
        (λ api. react-changed useful_line now code api zero_code)

  unchanged :
      (code : ℤ)
      → is_zero code ≡ true
      → From agent_running (publish D (agent_done code (some false))) Resting
  unchanged code zero_code =
      publish-Leads useful_line now start D (λ u. is_promptable u ≡ true)
        (agent_done code (some false)) (λ api. react-unchanged useful_line now code api zero_code)

  crashed :
      {s : SessionStatus} (code : ℤ)
      → is_zero code ≡ false
      → From s (publish D (agent_done code none)) (In failed)
  crashed code other_code =
      publish-Leads useful_line now start D (λ u. u ≡ failed) (agent_done code none)
        (λ api _. react-failed useful_line now code api other_code)

  crashed_resting :
      {s : SessionStatus} (code : ℤ)
      → is_zero code ≡ false
      → From s (publish D (agent_done code none)) Resting
  crashed_resting code other_code =
      publish-Leads useful_line now start D (λ u. is_promptable u ≡ true) (agent_done code none)
        (λ api _.
          let (next, accepted, status) = react-failed useful_line now code api other_code in
          (next, accepted, rw status refl))

  checked :
      {s : SessionStatus} (checks : ChecksResult)
      → From s (publish D (checks_result checks)) Resting
  checked checks =
      publish-Leads useful_line now start D (λ u. is_promptable u ≡ true) (checks_result checks)
        (λ api _. react-checks useful_line now checks api)

  diffed :
      {s : SessionStatus} (diff : String) (files : List String)
      → From s (publish D (git_diff diff files)) (In s)
  diffed {s} diff files =
      publish-Leads useful_line now start D (λ u. u ≡ s) (git_diff diff files)
        (λ api h. (api, react-diff useful_line now diff files api, h))

  module _ (input : PromptExecutionInput) where
    collect-Leads : {s : SessionStatus} → From s (collect D input) (In s)
    unfolding collect
    collect-Leads = ask-Leads useful_line now start (D.collect input.worktree_path)

    run_checks-Leads : {s : SessionStatus} → From s (run_checks D input) (In s)
    unfolding run_checks redacted
    run_checks-Leads {s} =
        bind (In s) (begun began_checks (D.run_checks _)) (redacted D)
          (begun-Leads useful_line now start began_checks (D.run_checks _) (λ api. refl))
          (λ checks. yields (redact_checks_result D checks) (In s) refl)

    module _ (initial : String) (paths : List String) where
      report-Leads :
          {s : SessionStatus} (outcome : Option ChecksResult)
          → Checked outcome s
          → From s (report D input initial paths outcome) Resting
      unfolding report
      report-Leads none rests = yields tt Resting rests
      report-Leads (some checks) waits = bind Resting (collect D input) _ collect-Leads (λ diff.
          bind Resting (publish D (git_diff diff.diff diff.changed_files)) _
            (diffed diff.diff diff.changed_files) (λ _. checked checks))

      none_left : {s : SessionStatus} → is_promptable s ≡ true → From s (return none) Checked
      none_left rests = yields none Checked rests

      after_repair-Leads :
          (before diff : CollectedDiff) (code : ℤ) (checks : ChecksResult)
          (next_round : ChecksResult → M World (Option ChecksResult))
          → is_zero code ≡ true
          → ((again : ChecksResult) → From checks_running (next_round again) Checked)
          → From agent_running
              (after_repair D input initial paths before diff code checks next_round)
              Checked
      unfolding after_repair
      after_repair-Leads before diff code checks next_round zero_code next =
          elim (Bool-cases (initial == diff.fingerprint)) [
            | inl same ↦ rw same (
                >>=-Leads useful_line now start Resting Checked
                  (publish D (agent_done code (some false))) _ (unchanged code zero_code)
                  (λ _ u rests. none_left rests))
            | inr other ↦ rw other (
                bind Checked (publish D (agent_done code (some true))) _ (changed code zero_code)
                  (λ _.
                    if-Leads useful_line now start Checked (diff.fingerprint == before.fingerprint)
                      _ _ (λ _. yields (some checks) Checked refl)
                      (λ _. bind Checked (run_checks D input) next_round run_checks-Leads next)))
          ]

      repair-Leads :
          (left attempt : ℕ) (checks : ChecksResult)
          → From checks_running (repair D input initial paths left attempt checks) Checked
      unfolding repair
      repair-Leads zero attempt checks = yields (some checks) Checked refl
      repair-Leads (suc left) attempt checks =
          if-Leads useful_line now start Checked (has_repairable_check_failure checks) _ _
            (λ _. bind Checked (collect D input) _ collect-Leads (λ before.
              bind Checked (publish D (agent_is_running (repair_message D attempt))) _
                (announce (repair_message D attempt) (inr refl))
                (λ _.
                  bind Checked (run_harness D _) _ (run_harness-Leads useful_line now start D _)
                    (λ code.
                      if-Leads useful_line now start Checked (is_zero code) _ _
                        (λ zero_code. bind Checked (collect D input) _ collect-Leads (λ diff.
                          after_repair-Leads before diff code checks _ zero_code
                            (repair-Leads left (suc attempt))))
                        (λ other.
                          bind Checked (publish D (agent_done code none)) _ (crashed code other)
                            (λ _. none_left refl))))))
            (λ _. yields (some checks) Checked refl)

      attempt_prompt-Leads : From agent_running (attempt_prompt D input initial paths) Resting
      unfolding attempt_prompt
      attempt_prompt-Leads =
          bind Resting (run_harness D _) _ (run_harness-Leads useful_line now start D _) (λ code.
            if-Leads useful_line now start Resting (is_zero code) _ _
              (λ zero_code. bind Resting (collect D input) _ collect-Leads (λ diff.
                if-Leads useful_line now start Resting (initial == diff.fingerprint) _ _
                  (λ _. unchanged code zero_code)
                  (λ _.
                    bind Resting (publish D (agent_done code (some true))) _
                      (changed code zero_code)
                      (λ _. bind Resting (run_checks D input) _ run_checks-Leads (λ checks.
                        >>=-Leads useful_line now start Checked Resting
                          (repair D input initial paths max_validation_repair_attempts 1 checks) _
                          (repair-Leads max_validation_repair_attempts 1 checks)
                          (λ outcome u. report-Leads outcome))))))
              (λ other. crashed_resting code other))

      finally-Holds :
          (p : State World × Result Failure (Unit {0}))
          → Holds useful_line now start Resting p
          → Holds useful_line now start Resting (behind p (clean_up D input.session_id))
      unfolding clean_up
      finally-Holds (st, ok a) (u, at, rests) =
          (u, silent-At useful_line now start st.effects cleaned_up (λ api. refl) at, rests)
      finally-Holds (st, err e) (u, at) =
          (u, silent-At useful_line now start st.effects cleaned_up (λ api. refl) at)

    run-Leads : {s : SessionStatus} → is_promptable s ≡ true → From s (run D input) Resting
    unfolding run
    run-Leads may =
        bind Resting (publish D (agent_is_running none)) _ (announce none (inl may)) (λ _.
          bind Resting (call (λ _. []) (D.snapshot input.worktree_path)) _
            (ask-Leads useful_line now start (D.snapshot input.worktree_path))
            (λ initial.
              bind Resting (call (λ _. downloaded ∷ []) _) _
                (call-Leads useful_line now start downloaded _ (λ api. refl))
                (λ paths st at.
                  finally-Holds initial paths (attempt_prompt D input initial paths st)
                    (attempt_prompt-Leads initial paths st at))))

-- Nothing has happened yet.
abbrev pub beginning : {W : Type 0} → W → State W
beginning w = record { world = w; effects = [] }

summary :
    (useful_line : String → Option String) (now : ℕ) (start : Api) {W : Type 0}
    (p : State W × Result Failure (Unit {0}))
    → Holds useful_line now start Resting p
    → (api : Api) × (replay useful_line now start p.0.effects ≡ ok api)
      × (p.1 ≡ ok tt → is_promptable api.session.status ≡ true)
summary useful_line now start (st, ok a) (u, at, rests) =
    (at.api, at.replayed, λ _. rw at.status rests)
summary useful_line now start (st, err e) (u, at) = (at.api, at.replayed, λ h. cc)

-- Whatever the harness, the checks, the diffs and the other calls answer or throw, the API accepts
-- every event that a prompt run publishes, in order, if the session was promptable at its start;
-- and if the run returns, the session is promptable again.
pub run-promptable :
    (useful_line : String → Option String) (now : ℕ) (start : Api) (D : Dependencies)
    (input : PromptExecutionInput) (w : D.World)
    → is_promptable start.session.status ≡ true
    → (api : Api) × (replay useful_line now start (run D input (beginning w)).0.effects ≡ ok api)
      × ((run D input (beginning w)).1 ≡ ok tt → is_promptable api.session.status ≡ true)
unfolding replay
run-promptable useful_line now start D input w may =
    summary useful_line now start (run D input (beginning w)) (
      run-Leads useful_line now start D input may (beginning w)
        (record { api = start; replayed = refl; status = refl }))
