-- ===== src/Prompt/Api.antt =====
-- The API's side of a prompt: the stored session and its latest validation run, as they follow the
-- published events in order. The events go through `toSessionAgentEvent` and `persistEvent` of
-- apps/api/src/agent-gateway/agent.gateway.ts to `SessionEventsService.apply`.
use pair_dock.Prelude.{
  ℕ, String, true, false, Option, none, some, List, [], ◌∷◌, ◌++◌, ◌≡◌, refl, ◌⊎◌, Result, ok,
  ◌>>=◌, first_returns, arith,
}
use pair_dock.Prelude.Decimal.{ℤ, is_zero}
use pair_dock.Domain.{Session, ValidationRun}
use pair_dock.Domain.Status.{
  SessionStatus, running_agent, agent_running, checks_running, failed, is_promptable,
}
use pair_dock.Protocol.Checks.{ChecksResult}
use pair_dock.Session.Machine.{
  TransitionError, ResumeStatus, resumed, resume_error, exit_error, progress, done,
  apply_agent_event,
}
use pair_dock.Session.Events.{
  SessionEvent, agent, resume_status, next_session, settle_checks, resolve_event,
}
use pair_dock.Session.Events.Apply.{validation_input}
use pair_dock.Prompt.Effects.{
  PromptEvent, agent_is_running, agent_output, agent_done, git_diff, checks_result, Effect,
  published, ran_harness, cancelled_harness, began_checks, downloaded, cleaned_up,
}

pub record Api : Type 0 where
  pub session : Session
  pub latest : Option ValidationRun

-- The session event of a published one; outputs and diffs are only logged.
abbrev pub to_session_event : PromptEvent → Option SessionEvent
to_session_event (agent_is_running message) = some (agent (progress running_agent message))
to_session_event (agent_output stream kind text) = none
to_session_event (agent_done code changes) = some (agent (done code changes none))
to_session_event (git_diff diff files) = none
to_session_event (checks_result checks) = some (SessionEvent.checks_result checks)

module _ (useful_line : String → Option String) (now : ℕ) where
  -- The validation run that is the latest behind an event.
  abbrev pub latest_after : Api → SessionEvent → Option ValidationRun
  latest_after api (agent e) = api.latest
  latest_after api (SessionEvent.checks_result checks) =
      let input = validation_input useful_line api.session.id checks in
      some (record {
        id = "";
        session_id = input.session_id;
        status = input.status;
        build_status = input.build_status;
        test_status = input.test_status;
        lint_status = input.lint_status;
        preview_status = input.preview_status;
        logs_ref = input.logs_ref;
        created_at = now;
      })

  unfoldable pub react_to : Api → SessionEvent → Result TransitionError Api
  react_to api e = do
    next ← next_session useful_line now api.latest api.session e
    ok (record { session = next; latest = latest_after api e })

  unfoldable pub react : Api → PromptEvent → Result TransitionError Api
  unfolding react_to
  react api e = elim (to_session_event e) [ none ↦ ok api | some event ↦ react_to api event ]

  abbrev pub react_effect : Api → Effect → Result TransitionError Api
  react_effect api (published e) = react api e
  react_effect api (ran_harness _) = ok api
  react_effect api cancelled_harness = ok api
  react_effect api began_checks = ok api
  react_effect api downloaded = ok api
  react_effect api cleaned_up = ok api

  -- The API behind a list of effects, or the exception of the first event that it refuses.
  unfoldable pub replay : Api → List Effect → Result TransitionError Api
  unfolding react
  replay api [] = ok api
  replay api (e ∷ effects) = do next ← react_effect api e; replay next effects

  pub replay-append :
      (api : Api) (effects : List Effect) (e : Effect) {behind : Api}
      → replay api effects ≡ ok behind
      → replay api (effects ++ e ∷ []) ≡ react_effect behind e
  unfolding replay
  replay-append api [] e h = ground arith
  replay-append api (f ∷ effects) e h =
      let (next, first, rest) = first_returns (react_effect api f) (λ n. replay n effects) h in
      rw first (replay-append next effects e rest)

  module _ (start : Api) where
    -- The API accepts the effects, and the session is in this status behind them.
    pub record At (s : SessionStatus) (effects : List Effect) : Type 0 where
      pub api : Api
      pub replayed : replay start effects ≡ ok api
      pub status : api.session.status ≡ s

    -- A step that the API accepts.
    pub extend :
        {s t : SessionStatus} (effects : List Effect) (e : Effect) (at : At s effects) (next : Api)
        → react_effect at.api e ≡ ok next
        → next.session.status ≡ t
        → At t (effects ++ e ∷ [])
    extend effects e at next accepted status = record {
      api = next;
      replayed = rw (replay-append start effects e at.replayed) accepted;
      status = status;
    }

  -- How each published event moves the session.
  pub react-running :
      (s : SessionStatus) (message : Option String)
      → (is_promptable s ≡ true) ⊎ (s ≡ checks_running)
      → (api : Api) → api.session.status ≡ s
      → (next : Api) × (react api (agent_is_running message) ≡ ok next)
        × (next.session.status ≡ agent_running)
  unfolding react next_session apply_agent_event resolve_event
  react-running s message may api h = (
    record {
      session = record (api.session) { status = agent_running; last_error = message };
      latest = api.latest;
    },
    ground arith,
    refl,
  )

  pub react-changed :
      (code : ℤ) (api : Api)
      → is_zero code ≡ true
      → api.session.status ≡ agent_running
      → (next : Api) × (react api (agent_done code (some true)) ≡ ok next)
        × (next.session.status ≡ checks_running)
  unfolding react next_session apply_agent_event resolve_event
  react-changed code api z h = (
    record {
      session = record (api.session) { status = checks_running; last_error = none };
      latest = api.latest;
    },
    ground arith,
    refl,
  )

  pub react-unchanged :
      (code : ℤ) (api : Api)
      → is_zero code ≡ true
      → api.session.status ≡ agent_running
      → (next : Api) × (react api (agent_done code (some false)) ≡ ok next)
        × (is_promptable next.session.status ≡ true)
  unfolding react next_session apply_agent_event resolve_event
  react-unchanged code api z h =
      let r : ResumeStatus = resume_status api.latest in
      (
        record {
          session = record (api.session) { status = resumed r; last_error = resume_error (some r) };
          latest = api.latest;
        },
        ground arith,
        ground arith,
      )

  pub react-failed :
      (code : ℤ) (api : Api)
      → is_zero code ≡ false
      → (next : Api) × (react api (agent_done code none) ≡ ok next) × (next.session.status ≡ failed)
  unfolding react next_session apply_agent_event resolve_event
  react-failed code api z = (
    record {
      session = record (api.session) { status = failed; last_error = some (exit_error code) };
      latest = api.latest;
    },
    ground arith,
    refl,
  )

  settle_checks_promptable :
      (s : Session) (checks : ChecksResult)
      → is_promptable (settle_checks useful_line s checks).status ≡ true
  unfolding settle_checks
  settle_checks_promptable s checks = ground arith

  pub react-checks :
      (checks : ChecksResult) (api : Api)
      → (next : Api) × (react api (checks_result checks) ≡ ok next)
        × (is_promptable next.session.status ≡ true)
  unfolding react next_session
  react-checks checks api = (_, refl, settle_checks_promptable api.session checks)

  -- Outputs and diffs are only logged.
  pub react-output :
      (stream : String) (kind : Option String) (text : String) (api : Api)
      → react api (agent_output stream kind text) ≡ ok api
  unfolding react
  react-output stream kind text api = refl

  pub react-diff :
      (diff : String) (files : List String) (api : Api) → react api (git_diff diff files) ≡ ok api
  unfolding react
  react-diff diff files api = refl
