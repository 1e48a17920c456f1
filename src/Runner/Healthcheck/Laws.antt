-- ===== src/Runner/Healthcheck/Laws.antt =====
-- The wait ends.
use pair_dock.Prelude.{
  ℕ, zero, suc, ◌+◌, ◌*◌, ◌≤◌, ◌<◌, String, true, false, Option, none, some, ltb, leb, ◌≡◌, refl,
  inl, inr, Bool-cases, Result, ok, err, arith,
}
use native.Mathlib.Nat.{suc-mul}
use pair_dock.Workspaces.Sandbox.{SandboxRef}
use pair_dock.Runner.Ports.{HealthcheckWaitInput}
use pair_dock.Runner.Healthcheck.{
  HealthcheckResult, WaitError, timed_out, thrown, WaitPorts, or_default, default_timeout_ms,
  default_interval_ms, after_check, wait, wait_until_ready,
}

-- The clock does not go back over a check, and a timer does not fire before its delay.
pub record IsTimed {W E : Type 0} (P : WaitPorts W E) : Type 0 where
  pub check_passes : (ref : SandboxRef) (w : W) → P.now w ≤ P.now (P.check ref w).0
  pub sleep_passes : (ms : ℕ) (w : W) → P.now w + ms ≤ P.now (P.sleep ms w)

leb-false : (a b : ℕ) → b < a → leb a b ≡ false
leb-false a b h = ground arith

module _ {W E : Type 0} (P : WaitPorts W E) (interval deadline : ℕ) where
  -- The wait has ended: with a check that was ready, with the exception of a check, or by the
  -- deadline, which another delay would have missed.
  abbrev pub Ends : W × Option (Result (WaitError E) HealthcheckResult) → Type 0
  Ends (w, none) = ⊥
  Ends (w, some (ok result)) = result.is_ready ≡ true
  Ends (w, some (err (thrown e))) = Unit {0}
  Ends (w, some (err (timed_out message))) = deadline < P.now w + interval

  module _ (timed : IsTimed P) (ref : SandboxRef) (timeout : ℕ) where
    checked-Ends :
        (rest : Option String → W → W × Option (Result (WaitError E) HealthcheckResult))
        (p : W × Result E HealthcheckResult)
        → ((message : Option String) (w : W)
            → P.now p.0 + interval ≤ P.now w
            → Ends (rest message w))
        → Ends (after_check P ref timeout interval deadline rest p)
    checked-Ends rest (w, err e) ends = tt
    checked-Ends rest (w, ok result) ends = elim (Bool-cases result.is_ready) [
      | inl up ↦ rw up refl
      | inr down ↦ elim (Bool-cases (ltb deadline (P.now w + interval))) [
        | inl late ↦ rw (down, late) (ground arith)
        | inr early ↦
            rw (down, early)
              (ends result.message (P.sleep interval w) (timed.sleep_passes interval w))
      ]
    ]

    wait-Ends :
        (fuel : ℕ) (message : Option String) (w : W)
        → deadline < P.now w + fuel * interval
        → Ends (wait P ref timeout interval deadline (suc fuel) message w)
    unfolding wait
    wait-Ends zero message w late = rw (leb-false (P.now w) deadline (omega arith)) (omega arith)
    wait-Ends (suc fuel) message w late = elim (Bool-cases (leb (P.now w) deadline)) [
      | inl early ↦ rw early (
          checked-Ends (wait P ref timeout interval deadline (suc fuel)) (P.check ref w)
            (λ message' w' passed.
              wait-Ends fuel message' w'
                (omega (arith, timed.check_passes ref w, suc-mul fuel interval))))
      | inr over ↦ rw over (ground arith)
    ]

-- Where the clock does not go back over a check and a timer does not fire early, a wait ends within
-- any number of rounds whose delays exceed its timeout, one more included: with a check that was
-- ready, with the exception of a check, or by a deadline that another delay would have missed.
pub wait_until_ready-Ends :
    {W E : Type 0} (P : WaitPorts W E)
    → IsTimed P
    → (i : HealthcheckWaitInput) (rounds : ℕ) (w : W)
    → or_default i.timeout_ms default_timeout_ms
      < rounds * or_default i.interval_ms default_interval_ms
    → Ends P
        (or_default i.interval_ms default_interval_ms)
        (P.now w + or_default i.timeout_ms default_timeout_ms)
        (wait_until_ready P i (suc rounds) w)
unfolding wait_until_ready
wait_until_ready-Ends P timed i rounds w long =
    wait-Ends P _ _ timed i.sandbox_ref _ rounds none w (omega arith)
