-- ===== src/Prompt/Restart.antt =====
-- A prompt run behind a restart of the agent.
use pair_dock.Prelude.{ℕ, String, Bool, true, false, Option, [], ◌∷◌, ◌≡◌, refl, ok, arith}
use pair_dock.Domain.{Session, SessionStatus, ValidationRun}
use pair_dock.Domain.Status.{review_request_created, closing, closed, has_status, is_promptable}
use pair_dock.Session.Machine.{recovered, recover, apply_agent_event}
use pair_dock.Prompt.Effects.{Dependencies}
use pair_dock.Prompt.Runner.{PromptExecutionInput, run}
use pair_dock.Prompt.Api.{Api, replay}
use pair_dock.Prompt.Protocol.{beginning, run-promptable}

-- The statuses in which the work on a session has ended.
abbrev pub has_ended : SessionStatus → Bool
has_ended = has_status (review_request_created ∷ closing ∷ closed ∷ [])

-- A recovery leaves a session promptable, whatever it was interrupted in, unless it has ended.
recover-promptable :
    (now : ℕ) (s t : Session) (url : String)
    → has_ended s.status ≡ false
    → apply_agent_event now s (recovered url) ≡ ok t
    → is_promptable t.status ≡ true
unfolding apply_agent_event
recover-promptable now s t url going accepted = ground arith

-- Where a session has not ended, the API accepts the event of its recovery, in whatever operation the
-- restart of the agent has interrupted it, and the session takes a prompt again: every event that a
-- prompt run publishes then is accepted, in order, whatever the calls of the run answer or throw; and
-- if the run returns, the session is promptable still.
pub run-after_recovery :
    (useful_line : String → Option String) (now : ℕ) (s : Session) (latest : Option ValidationRun)
    (url : String) (D : Dependencies) (input : PromptExecutionInput) (w : D.World)
    → has_ended s.status ≡ false
    → (t : Session) × (apply_agent_event now s (recovered url) ≡ ok t)
      × (is_promptable t.status ≡ true)
      × (api : Api) × (replay useful_line now
            (record { session = t; latest = latest })
            (run D input (beginning w)).0.effects
          ≡ ok api)
      × ((run D input (beginning w)).1 ≡ ok tt → is_promptable api.session.status ≡ true)
unfolding apply_agent_event
run-after_recovery useful_line now s latest url D input w going =
    let promptable = recover-promptable now s (recover s url) url going refl in
    let (api, accepted, returns) =
      run-promptable useful_line now (record { session = recover s url; latest = latest }) D input w
        promptable in
    (recover s url, refl, promptable, api, accepted, returns)
