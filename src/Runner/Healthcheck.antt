-- ===== src/Runner/Healthcheck.antt =====
-- packages/local-agent/src/docker/healthcheck.service.ts, which the session runner waits for. The
-- loop takes fuel; `none` is a wait that has run out of it.
pub mod Laws
mod Tests
use pair_dock.Prelude.{
  ℕ, zero, suc, ◌+◌, ◌≤◌, String, Bool, true, false, Option, none, some, ltb, leb, has_text, ◌<>◌,
  if◌then◌else◌, Result, ok, err,
}
use pair_dock.Prelude.Decimal.{pos, to_string}
use pair_dock.Workspaces.Sandbox.{SandboxRef}
use pair_dock.Runner.Ports.{HealthcheckWaitInput}

pub record HealthcheckResult : Type 0 where
  pub is_ready : Bool
  pub url : String
  pub message : Option String

pub data WaitError (E : Type 0) : Type 0 where
  timed_out : (message : String) → WaitError E
  thrown : E → WaitError E

-- The clock, `sandboxPort.check`, and `setTimeout`.
pub record WaitPorts (W E : Type 0) : Type 0 where
  pub now : W → ℕ
  pub check : SandboxRef → W → W × Result E HealthcheckResult
  pub sleep : ℕ → W → W

abbrev pub or_default : Option ℕ → ℕ → ℕ
or_default none n = n
or_default (some n) default = n

abbrev pub default_timeout_ms : ℕ
default_timeout_ms = 30000

abbrev pub default_interval_ms : ℕ
default_interval_ms = 500

abbrev pub last_result : Option String → String
last_result none = ""
last_result (some message) = if has_text (some message) then " Last result: " <> message else ""

abbrev pub timeout_message : String → ℕ → Option String → String
timeout_message session_id timeout message =
    "Preview healthcheck did not become ready for session "
    <> session_id
    <> " within "
    <> to_string (pos timeout)
    <> "ms."
    <> last_result message

module _ {W E : Type 0} (P : WaitPorts W E) (ref : SandboxRef) (timeout interval deadline : ℕ) where
  abbrev pub give_up : Option String → W → W × Option (Result (WaitError E) HealthcheckResult)
  give_up message w = (w, some (err (timed_out (timeout_message ref.session_id timeout message))))

  -- What follows a check, with the rest of the loop.
  abbrev pub after_check :
      (Option String → W → W × Option (Result (WaitError E) HealthcheckResult))
      → W × Result E HealthcheckResult
      → W × Option (Result (WaitError E) HealthcheckResult)
  after_check rest (w, err e) = (w, some (err (thrown e)))
  after_check rest (w, ok result) =
      if result.is_ready
      then (w, some (ok result))
      else (if ltb deadline (P.now w + interval)
          then give_up result.message w
          else rest result.message (P.sleep interval w))

  -- The loop.
  unfoldable pub wait : ℕ → Option String → W → W × Option (Result (WaitError E) HealthcheckResult)
  wait zero message w = (w, none)
  wait (suc fuel) message w =
      let polled = after_check (wait fuel) (P.check ref w) in
      if leb (P.now w) deadline then polled else give_up message w

-- `waitUntilReady`.
unfoldable pub wait_until_ready :
    {W E : Type 0}
    → WaitPorts W E
    → HealthcheckWaitInput
    → ℕ
    → W
    → W × Option (Result (WaitError E) HealthcheckResult)
unfolding wait
wait_until_ready P i fuel w =
    let timeout = or_default i.timeout_ms default_timeout_ms in
    wait P i.sandbox_ref timeout (or_default i.interval_ms default_interval_ms) (P.now w + timeout)
      fuel none w
