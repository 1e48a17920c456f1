-- ===== src/Prompt/Bounds.antt =====
-- How often a prompt run starts the agent and the checks, by a weight on effects.
use pair_dock.Prelude.{
  ℕ, zero, suc, ◌+◌, ◌*◌, ◌≤◌, String, true, false, Option, none, some, List, [], ◌∷◌, ◌==◌, ◌≡◌,
  refl, Result, ok, err, arith,
}
use pair_dock.Prelude.Decimal.{ℤ, is_zero}
use pair_dock.Protocol.Checks.{ChecksResult}
use pair_dock.Prompt.Effects.{
  Failure, HarnessEvent, output, finished, RunPromptInput, CollectedDiff, PromptEvent,
  agent_is_running, agent_output, agent_done, git_diff, checks_result, Effect, published,
  ran_harness, cancelled_harness, began_checks, downloaded, cleaned_up, Dependencies, State, M,
  ◌>>=◌, return, call, begun, note,
}
use pair_dock.Prompt.Runner.{
  PromptExecutionInput, has_repairable_check_failure, publish, consume, raise, read_stream,
  after_stream, run_harness, collect, redacted, after_repair, run_checks, repair_message, repair,
  report, attempt_prompt, clean_up, run, max_validation_repair_attempts,
}
use pair_dock.Prompt.Protocol.{beginning}
use pair_dock.Prompt.Costs.{
  tally, tally-append, Adds, then-Adds, if-Adds, call-Adds, begun-Adds, weaken,
}

abbrev pub is_harness_run : Effect → ℕ
is_harness_run (ran_harness _) = 1
is_harness_run _ = 0

abbrev pub is_checks_run : Effect → ℕ
is_checks_run began_checks = 1
is_checks_run _ = 0

-- A weight on runs of the harness and of the checks.
pub record IsCost (weight : Effect → ℕ) (h c : ℕ) : Type 0 where
  pub publishing : (e : PromptEvent) → weight (published e) ≡ 0
  pub harness : (i : RunPromptInput) → weight (ran_harness i) ≡ h
  pub checks : weight began_checks ≡ c
  pub cancelling : weight cancelled_harness ≡ 0
  pub downloading : weight downloaded ≡ 0
  pub cleaning : weight cleaned_up ≡ 0

module _ (weight : Effect → ℕ) (h c : ℕ) (cost : IsCost weight h c) (D : Dependencies) where
  open D use {World}

  bind :
      {A B : Type 0} (j k n : ℕ) (m : M World A) (next : A → M World B)
      → j + k ≤ n
      → Adds weight j m
      → ((a : A) → Adds weight k (next a))
      → Adds weight n (m >>= next)
  bind j k n m next fits first more st = omega (arith, then-Adds weight j k m next first more st)

  publish-Adds : (e : PromptEvent) → Adds weight 0 (publish D e)
  unfolding publish tally
  publish-Adds e =
      call-Adds weight 0 (published e ∷ []) (D.publish e) (omega (arith, cost.publishing e))

  consume-Adds :
      (events : List HarnessEvent) (code : Option ℤ) → Adds weight 0 (consume D events code)
  unfolding consume
  consume-Adds [] code st = omega arith
  consume-Adds (output stream kind text ∷ events) code st = omega (
    arith,
    bind 0 0 0 (publish D (agent_output stream kind (D.redact text))) (λ _. consume D events code)
        (omega arith) (publish-Adds _) (λ _. consume-Adds events code) st,
  )
  consume-Adds (finished exit_code ∷ events) code st = consume-Adds events (some exit_code) st

  raise-Adds : (failure : Option Failure) (code : Option ℤ) → Adds weight 0 (raise D failure code)
  raise-Adds none code st = omega arith
  raise-Adds (some e) code st = omega arith

  after_stream-Adds :
      (id : String) (p : State World × Result Failure (Option ℤ))
      → tally weight (after_stream D id p).0.effects ≤ tally weight p.0.effects
  unfolding after_stream tally
  after_stream-Adds id (st, ok (some code)) = omega arith
  after_stream-Adds id (st, ok none) = omega arith
  after_stream-Adds id (st, err e) =
      omega (arith, tally-append weight st.effects (cancelled_harness ∷ []), cost.cancelling)

  run_harness-Adds : (input : RunPromptInput) → Adds weight h (run_harness D input)
  unfolding run_harness read_stream tally
  run_harness-Adds input st =
      let (w, events, failure) = D.run_prompt input st.world in
      let st' : State World = note (ran_harness input) (record st { world = w }) in
      omega (
        arith,
        after_stream-Adds input.session_id (read_stream D events failure st'),
        bind 0 0 0 (consume D events none) (raise D failure) (omega arith)
            (consume-Adds events none) (raise-Adds failure) st',
        tally-append weight st.effects (ran_harness input ∷ []),
        cost.harness input,
      )

  module _ (input : PromptExecutionInput) where
    collect-Adds : Adds weight 0 (collect D input)
    unfolding collect tally
    collect-Adds = call-Adds weight 0 [] (D.collect input.worktree_path) (omega arith)

    run_checks-Adds : Adds weight c (run_checks D input)
    unfolding run_checks redacted tally
    run_checks-Adds st = omega (
      arith,
      bind c 0 c (begun began_checks (D.run_checks _)) (redacted D) (omega arith)
          (begun-Adds weight c began_checks (D.run_checks _) (omega (arith, cost.checks)))
          (λ checks st'. omega arith) st,
    )

    module _ (initial : String) (paths : List String) where
      return-Adds : {A : Type 0} (k : ℕ) (a : A) → Adds weight k (return {W = World} a)
      return-Adds k a st = omega arith

      report-Adds :
          (outcome : Option ChecksResult) → Adds weight 0 (report D input initial paths outcome)
      unfolding report
      report-Adds none = return-Adds 0 tt
      report-Adds (some checks) = bind 0 0 0 (collect D input) _ (omega arith) collect-Adds (λ diff.
          bind 0 0 0 (publish D (git_diff diff.diff diff.changed_files)) _ (omega arith)
            (publish-Adds _) (λ _. publish-Adds (checks_result checks)))

      after_repair-Adds :
          (k : ℕ) (before diff : CollectedDiff) (code : ℤ) (checks : ChecksResult)
          (next_round : ChecksResult → M World (Option ChecksResult))
          → ((again : ChecksResult) → Adds weight k (next_round again))
          → Adds weight
              (c + k)
              (after_repair D input initial paths before diff code checks next_round)
      unfolding after_repair
      after_repair-Adds k before diff code checks next_round more =
          bind 0 (c + k) (c + k) (publish D _) _ (omega arith) (publish-Adds _) (λ _.
            if-Adds weight (c + k) (initial == diff.fingerprint) _ _
              (return-Adds {A = Option ChecksResult} (c + k) none)
              (if-Adds weight (c + k) (diff.fingerprint == before.fingerprint) _ _
                (return-Adds (c + k) (some checks))
                (bind c k (c + k) (run_checks D input) next_round (omega arith) run_checks-Adds
                  more)))

      -- A round of the loop runs the agent once, and the checks at most once.
      repair-Adds :
          (left attempt : ℕ) (checks : ChecksResult)
          → Adds weight (left * (h + c)) (repair D input initial paths left attempt checks)
      unfolding repair
      repair-Adds zero attempt checks = return-Adds (0 * (h + c)) (some checks)
      repair-Adds (suc left) attempt checks =
          let rest = left * (h + c) in
          let n = suc left * (h + c) in
          if-Adds weight n (has_repairable_check_failure checks) _ _
            (bind 0 n n (collect D input) _ (omega arith) collect-Adds (λ before.
              bind 0 n n (publish D (agent_is_running (repair_message D attempt))) _ (omega arith)
                (publish-Adds _)
                (λ _.
                  bind h (c + rest) n (run_harness D _) _ (omega arith) (run_harness-Adds _)
                    (λ code.
                      if-Adds weight (c + rest) (is_zero code) _ _
                        (bind 0 (c + rest) (c + rest) (collect D input) _ (omega arith) collect-Adds
                          (λ diff.
                            after_repair-Adds rest before diff code checks _
                              (repair-Adds left (suc attempt))))
                        (bind 0 (c + rest) (c + rest) (publish D (agent_done code none)) _
                          (omega arith) (publish-Adds _)
                          (λ _. return-Adds {A = Option ChecksResult} (c + rest) none))))))
            (return-Adds n (some checks))

      attempt_prompt-Adds : Adds weight (3 * h + 3 * c) (attempt_prompt D input initial paths)
      unfolding attempt_prompt
      attempt_prompt-Adds =
          let n = 2 * h + 3 * c in
          bind h n (3 * h + 3 * c) (run_harness D _) _ (omega arith) (run_harness-Adds _) (λ code.
            if-Adds weight n (is_zero code) _ _
              (bind 0 n n (collect D input) _ (omega arith) collect-Adds (λ diff.
                if-Adds weight n (initial == diff.fingerprint) _ _
                  (weaken weight 0 n (publish D (agent_done code (some false))) (omega arith)
                    (publish-Adds _))
                  (bind 0 n n (publish D (agent_done code (some true))) _ (omega arith)
                    (publish-Adds _)
                    (λ _.
                      bind c (2 * (h + c)) n (run_checks D input) _ (omega arith) run_checks-Adds
                        (λ checks.
                          bind (2 * (h + c)) 0 (2 * (h + c))
                            (repair D input initial paths max_validation_repair_attempts 1 checks) _
                            (omega arith) (repair-Adds max_validation_repair_attempts 1 checks)
                            report-Adds)))))
              (weaken weight 0 n (publish D (agent_done code none)) (omega arith) (publish-Adds _)))

    run-Adds : Adds weight (3 * h + 3 * c) (run D input)
    unfolding run clean_up tally
    run-Adds =
        let n = 3 * h + 3 * c in
        bind 0 n n (publish D (agent_is_running none)) _ (omega arith) (publish-Adds _) (λ _.
          bind 0 n n (call (λ _. []) (D.snapshot input.worktree_path)) _ (omega arith)
            (call-Adds weight 0 [] (D.snapshot input.worktree_path) (omega arith))
            (λ initial.
              bind 0 n n
                (call (λ _. downloaded ∷ []) (D.download input.session_id input.attachments)) _
                (omega arith)
                (call-Adds weight 0 (downloaded ∷ [])
                  (D.download input.session_id input.attachments) (omega (arith, cost.downloading)))
                (λ paths st. omega (
                  arith,
                  attempt_prompt-Adds initial paths st,
                  cost.cleaning,
                  tally-append weight (attempt_prompt D input initial paths st).0.effects
                      (cleaned_up ∷ []),
                ))))

-- A prompt run starts the agent at most three times and the checks at most three times, whatever
-- they answer or throw; a start counts also where it throws.
pub run_bounds :
    (D : Dependencies) (input : PromptExecutionInput) (w : D.World)
    → (tally is_harness_run (run D input (beginning w)).0.effects ≤ 3)
      × (tally is_checks_run (run D input (beginning w)).0.effects ≤ 3)
unfolding tally
run_bounds D input w = (
  omega (arith, run-Adds is_harness_run 1 0 harness_cost D input (beginning w)),
  omega (arith, run-Adds is_checks_run 0 1 checks_cost D input (beginning w)),
)
  where
    harness_cost : IsCost is_harness_run 1 0
    harness_cost = record {
      publishing = λ e. refl;
      harness = λ i. refl;
      checks = refl;
      cancelling = refl;
      downloading = refl;
      cleaning = refl;
    }

    checks_cost : IsCost is_checks_run 0 1
    checks_cost = record {
      publishing = λ e. refl;
      harness = λ i. refl;
      checks = refl;
      cancelling = refl;
      downloading = refl;
      cleaning = refl;
    }
