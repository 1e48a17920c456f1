-- ===== src/Validation/Steps.antt =====
-- What one check of a run leaves, and how many commands it starts.
use pair_dock.Prelude.{
  ℕ, ◌≤◌, ◌+◌, String, true, ◌&&◌, Option, none, some, ◌≡◌, arith, Result, ok, err, truthy,
  has_text, Bool-cases, inl, inr,
}
use pair_dock.Prelude.Actions.{Action, After, After-map, continue-After, continue, return}
use pair_dock.Protocol.Checks.{CheckResult, ChecksResult, is_passed, is_failed}
use pair_dock.Validation.{
  Calls, Host, run_command_attempt, run_command_check, executing, started, Execution, Response,
  run_preview_check, fetched, is_transient_failure, attempt_result, after_first, retried,
}

-- A check that has passed was given what it checks, and no more than `n` commands were started.
pub record IsChecked {W : Type 0} (target : Option String) (n : ℕ) (r : CheckResult) (h : Host W)
    : Type 0 where
  pub has_target : is_passed r.status ≡ true → has_text target ≡ true
  pub bound : h.executed ≤ n

abbrev pub Within : {W : Type 0} → ℕ → String → Host W → Type 0
Within n e h = h.executed ≤ n

-- A call that throws is within a larger bound too.
raise :
    {W A : Type 0} (Q : A → Host W → Type 0) (n m : ℕ) (p : Host W × Result String A)
    → n ≤ m
    → After Q (Within n) p
    → After Q (Within m) p
raise Q n m (h, ok a) enough holds = holds
raise Q n m (h, err e) enough bound = omega arith

module _ {W : Type 0} (C : Calls W) where
  started-Within :
      (command : String) (n : ℕ) (h : Host W) (p : W × Result String Execution)
      → h.executed + 1 ≤ n
      → After
          (λ r after. after.executed ≤ n)
          (Within n)
          (continue (started C h.executed p) (λ e. return (attempt_result C command e)))
  started-Within command n h (world, ok e) below = omega arith
  started-Within command n h (world, err e) below = omega arith

  executing-Within :
      (execute : Option (String → String → W → W × Result String Execution)) (command id : String)
      (n : ℕ) (h : Host W)
      → h.executed + 1 ≤ n
      → After
          (λ r after. after.executed ≤ n)
          (Within n)
          (continue (executing C execute command id h) (λ e. return (attempt_result C command e)))
  executing-Within none command id n h below = omega arith
  executing-Within (some execute) command id n h below =
      started-Within command n h (execute command id h.world) below

  attempt-Within :
      (command id : String) (n : ℕ) (h : Host W)
      → h.executed + 1 ≤ n
      → After (λ r after. after.executed ≤ n) (Within n) (run_command_attempt C command id h)
  unfolding run_command_attempt
  attempt-Within command id n h below = executing-Within C.execute command id n h below

  first-Within :
      (command id : String) (n : ℕ) (first : CheckResult) (h : Host W)
      → h.executed ≤ n + 1
      → After
          (λ r after. after.executed ≤ n + 2)
          (Within (n + 2))
          (after_first C command id first h)
  first-Within command id n first h below =
      elim (Bool-cases (is_failed first.status && is_transient_failure C first.logs)) [
        | inl again ↦ rw (again) (
            continue-After (λ r after. after.executed ≤ n + 2) (λ r after. after.executed ≤ n + 2)
              (Within (n + 2)) (run_command_attempt C command id h)
              (λ retry. return (retried C first retry))
              (attempt-Within command id (n + 2) h (omega arith)) (λ retry after bound. bound))
        | inr once ↦ rw (once) (omega arith)
      ]

  check-IsChecked :
      (command : Option String) (id label : String) (n : ℕ) (h : Host W)
      → h.executed ≤ n
      → After (IsChecked command (n + 2)) (Within (n + 2)) (run_command_check C command id label h)
  unfolding run_command_check
  check-IsChecked none id label n h below = record {
    has_target = ground arith;
    bound = omega arith;
  }
  check-IsChecked (some command) id label n h below = elim (Bool-cases (truthy command)) [
    | inl given ↦ rw (given) (
        continue-After (λ r after. after.executed ≤ n + 1) (IsChecked (some command) (n + 2))
          (Within (n + 2)) (run_command_attempt C command id h) (after_first C command id)
          (raise (λ r after. after.executed ≤ n + 1) (n + 1) (n + 2)
            (run_command_attempt C command id h) (omega arith)
            (attempt-Within command id (n + 1) h (omega arith)))
          (λ first after bound.
            After-map {Q = λ r last. last.executed ≤ n + 2} {R = IsChecked (some command) (n + 2)}
              {Y = Within (n + 2)} (after_first C command id first after)
              (λ r last within. record { has_target = λ passes. given; bound = within })
              (λ e last within. within) (first-Within command id n first after bound)))
    | inr absent ↦ rw (absent) record { has_target = ground arith; bound = omega arith }
  ]

  fetched-IsChecked :
      (url : String) (n m : ℕ) (p : W × Result String Response)
      → truthy url ≡ true
      → m ≤ n
      → After (IsChecked (some url) n) (Within n) (fetched C m p)
  fetched-IsChecked url n m (world, reply) given below = record {
    has_target = λ passes. given;
    bound = below;
  }

  preview-IsChecked :
      (url : Option String) (n : ℕ) (h : Host W)
      → h.executed ≤ n
      → After (IsChecked url n) (Within n) (run_preview_check C url h)
  unfolding run_preview_check
  preview-IsChecked none n h below = record { has_target = ground arith; bound = below }
  preview-IsChecked (some url) n h below = elim (Bool-cases (truthy url)) [
    | inl given ↦ rw (given) (fetched-IsChecked url n h.executed (C.fetch url h.world) given below)
    | inr absent ↦ rw (absent) record { has_target = ground arith; bound = below }
  ]

  module _ (R : ChecksResult → Host W → Type 0) where
    pub check_then :
        (command : Option String) (id label : String) (n m : ℕ) (h : Host W)
        → h.executed ≤ n
        → n + 2 ≤ m
        → (next : CheckResult → Action (Host W) String ChecksResult)
        → ((r : CheckResult) (after : Host W)
            → IsChecked command (n + 2) r after
            → After R (Within m) (next r after))
        → After R (Within m) (continue (run_command_check C command id label h) next)
    check_then command id label n m h below enough next then_after =
        continue-After (IsChecked command (n + 2)) R (Within m)
          (run_command_check C command id label h) next
          (raise (IsChecked command (n + 2)) (n + 2) m (run_command_check C command id label h)
            enough (check-IsChecked command id label n h below))
          then_after

    pub preview_then :
        (url : Option String) (n m : ℕ) (h : Host W)
        → h.executed ≤ n
        → n ≤ m
        → (next : CheckResult → Action (Host W) String ChecksResult)
        → ((r : CheckResult) (after : Host W)
            → IsChecked url n r after
            → After R (Within m) (next r after))
        → After R (Within m) (continue (run_preview_check C url h) next)
    preview_then url n m h below enough next then_after =
        continue-After (IsChecked url n) R (Within m) (run_preview_check C url h) next
          (raise (IsChecked url n) n m (run_preview_check C url h) enough
            (preview-IsChecked url n h below))
          then_after
