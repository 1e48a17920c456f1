-- ===== src/Session/Machine/Tests.antt =====
-- Runs of the machine, and its theorems at concrete sessions.
use pair_dock.Prelude.{
  ℕ, true, false, Option, none, some, ◌≡◌, refl, ◌↔◌, List, [], ◌∷◌, ok, err, arith,
}
use pair_dock.Prelude.Decimal.{pos, to_string}
use pair_dock.Domain.{Session, SessionStatus}
use pair_dock.Domain.Status.{
  review_request_creating, created, agent_running, review_request_creating, closed, failed,
  connecting, creating_worktree, starting_docker, starting_preview, running_agent,
  awaiting_validation, creating_review_request,
}
use pair_dock.Session.Machine.{
  SessionAgentEvent, progress, became_ready, done, error, no_transition, apply_agent_event,
  close_session,
}
use pair_dock.Session.Machine.Diagram.{
  ◌⟶◌, apply_agent_event-⟶, ⟶-apply_agent_event, prompt, when_failed,
}
use pair_dock.Session.Machine.Effects.{
  IsSound, apply_agent_event-IsSound, is_failure, apply_agent_event_closed,
}
use pair_dock.Session.Machine.Traces.{run, HasAwaited, run-HasAwaited}

abbrev session_at : SessionStatus → Option ℕ → Session
session_at status closed_at = record {
  id = "s1";
  project_id = "p1";
  created_by_user_id = "dev";
  status = status;
  model_id = "gpt";
  reasoning_effort = "medium";
  branch_name = some "pairdock/session-1";
  worktree_ref = none;
  preview_url = none;
  last_error = none;
  created_at = 1;
  closed_at = closed_at;
}

abbrev happy : List SessionAgentEvent
happy =
    progress connecting none
    ∷ progress creating_worktree none
    ∷ progress starting_docker none
    ∷ progress starting_preview none
    ∷ became_ready "https://preview"
    ∷ progress running_agent none
    ∷ done (pos 0) none none
    ∷ progress awaiting_validation none
    ∷ progress creating_review_request none
    ∷ []

abbrev requested : Session
requested = record (session_at review_request_creating none) {
  preview_url = some "https://preview";
}

run-happy : run 9 (session_at created none) happy ≡ ok requested
unfolding run apply_agent_event
run-happy = refl

skipped_step :
    apply_agent_event 9 (session_at created none) (progress creating_worktree none)
    ≡ err (no_transition created (SessionStatus.worktree_creating))
unfolding apply_agent_event
skipped_step = refl

failed_prompt :
    apply_agent_event 9 (session_at agent_running none) (done (pos 7) none none)
    ≡ ok (record (session_at failed none) {
      last_error = some "Agent command failed with exit code 7.";
    })
unfolding apply_agent_event to_string
failed_prompt = refl

-- A report that comes after the close opens the session again.
late_error :
    apply_agent_event 9 (session_at closed (some 5)) (error "late" true)
    ≡ ok (record (session_at failed (some 5)) { last_error = some "late" })
unfolding apply_agent_event
late_error = refl

apply_agent_event-⟶_example : agent_running ⟶ failed
apply_agent_event-⟶_example =
    apply_agent_event-⟶ 9 (session_at agent_running none) (done (pos 7) none none) _ failed_prompt

⟶-apply_agent_event_example :
    (e : SessionAgentEvent) × (t : Session) × (apply_agent_event 9 (session_at failed none) e
      ≡ ok t)
    × (t.status ≡ agent_running)
⟶-apply_agent_event_example =
    ⟶-apply_agent_event 9 (session_at failed none) (prompt when_failed) refl

session_at_running-IsSound : IsSound (session_at agent_running none)
session_at_running-IsSound = ground arith

apply_agent_event-IsSound_example :
    let t = record (session_at failed none) {
      last_error = some "Agent command failed with exit code 7.";
    } in
    IsSound t × IsSound (close_session t 9)
apply_agent_event-IsSound_example =
    apply_agent_event-IsSound 9 (session_at agent_running none) (done (pos 7) none none) _
      session_at_running-IsSound failed_prompt

apply_agent_event_closed_example :
    ((is_failure (error "late" true) ≡ true) ↔ (failed ≡ failed))
    × ((is_failure (error "late" true) ≡ false) ↔ (failed ≡ closed))
apply_agent_event_closed_example =
    apply_agent_event_closed 9 (session_at closed (some 5)) (error "late" true) _ refl late_error

run-HasAwaited_example : HasAwaited 9 (session_at created none) happy
run-HasAwaited_example =
    run-HasAwaited 9 (session_at created none) happy requested refl run-happy refl
