-- ===== src/Runner/Healthcheck/Tests.antt =====
-- A preview that is up after a second, and one that is not up in time.
use pair_dock.Prelude.{ℕ, suc, ◌+◌, String, Option, none, some, leb, ◌≡◌, refl, ok, err, arith}
use pair_dock.Prelude.Decimal.{to_string}
use pair_dock.Runner.Ports.{HealthcheckWaitInput}
use pair_dock.Runner.Healthcheck.{timed_out, WaitPorts, wait, wait_until_ready}
use pair_dock.Runner.Healthcheck.Laws.{IsTimed, Ends, wait_until_ready-Ends}

-- The world is the time; a check takes 10 ms.
abbrev ports : WaitPorts ℕ String
ports = record {
  now = λ time. time;
  check = λ ref time. (
    time + 10,
    ok (record { is_ready = leb 1000 time; url = "http://localhost"; message = some "refused" }),
  );
  sleep = λ ms time. time + ms;
}

ports-IsTimed : IsTimed ports
ports-IsTimed = record { check_passes = λ ref w. omega arith; sleep_passes = λ ms w. omega arith }

abbrev input : Option ℕ → HealthcheckWaitInput
input timeout = record {
  interval_ms = none;
  sandbox_ref = record {
    id = "b1";
    session_id = "s1";
    healthcheck_url = "http://localhost";
    metadata = none;
    preview_config = none;
  };
  timeout_ms = timeout;
}

comes_up : (wait_until_ready ports (input none) 61 0).0 ≡ 1030
unfolding wait_until_ready wait
comes_up = refl

too_late : wait_until_ready ports (input (some 700)) 61 0 ≡ (
  520,
  some (
      err (
        timed_out
          "Preview healthcheck did not become ready for session s1 within 700ms. Last result: refused")),
)
unfolding wait_until_ready wait to_string
too_late = refl

wait_until_ready-Ends_example :
    Ends ports 500 30000 (wait_until_ready ports (input none) (suc 61) 0)
wait_until_ready-Ends_example =
    wait_until_ready-Ends ports ports-IsTimed (input none) 61 0 (omega arith)
