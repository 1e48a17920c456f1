-- ===== src/Session/Machine/Diagram.antt =====
-- The transition diagram of a session, stated without the machine's tables, and its exact fit.
use pair_dock.Prelude.{ℕ, String, true, false, none, some, ◌≡◌, refl, ok, arith}
use pair_dock.Prelude.Decimal.{pos}
use pair_dock.Domain.{Session, SessionStatus, ProgressStatus}
use pair_dock.Domain.Status.{
  created, agent_connecting, worktree_creating, docker_starting, preview_starting, ready,
  agent_running, checks_running, awaiting_pm_validation, review_request_creating,
  review_request_created, closing, closed, failed, connecting, creating_worktree, starting_docker,
  starting_preview, running_agent, running_checks, awaiting_validation, creating_review_request,
  created_review_request, to_status,
}
use pair_dock.Session.Machine.{
  ResumeStatus, to_ready, to_awaiting, resumed, resume_error, SessionAgentEvent, progress,
  became_ready, recovered, done, session_closed, error, apply_agent_event,
}

pub data IsPreparing : SessionStatus → Type 0 where
  at_creation : IsPreparing created
  at_connection : IsPreparing agent_connecting
  at_worktree : IsPreparing worktree_creating
  at_docker : IsPreparing docker_starting
  at_preview : IsPreparing preview_starting

pub data IsPromptable : SessionStatus → Type 0 where
  when_ready : IsPromptable ready
  when_validated : IsPromptable awaiting_pm_validation
  when_failed : IsPromptable failed

pub data IsSettled : SessionStatus → Type 0 where
  is_ready : IsSettled ready
  is_awaiting : IsSettled awaiting_pm_validation
  is_requested : IsSettled review_request_created
  is_closing : IsSettled closing
  is_closed : IsSettled closed
  is_failed : IsSettled failed

infix 40 ◌⟶◌
pub data ◌⟶◌ : SessionStatus → SessionStatus → Type 0 where
  connect : created ⟶ agent_connecting
  check_out : agent_connecting ⟶ worktree_creating
  start_docker : worktree_creating ⟶ docker_starting
  start_preview : docker_starting ⟶ preview_starting
  restore : {s : SessionStatus} → IsPreparing s → s ⟶ ready
  prompt : {s : SessionStatus} → IsPromptable s → s ⟶ agent_running
  check : agent_running ⟶ checks_running
  repair : checks_running ⟶ agent_running
  resume_ready : agent_running ⟶ ready
  resume_awaiting : agent_running ⟶ awaiting_pm_validation
  validate : checks_running ⟶ awaiting_pm_validation
  request : awaiting_pm_validation ⟶ review_request_creating
  publish : review_request_creating ⟶ review_request_created
  fail : {s : SessionStatus} → s ⟶ failed
  close : {s : SessionStatus} → s ⟶ closed
  stay : {s : SessionStatus} → IsSettled s → s ⟶ s

ruleset edges = (
  connect, check_out, start_docker, start_preview, restore, prompt, check, repair, resume_ready,
  resume_awaiting, validate, request, publish, fail, close, stay,
)

ruleset phases = (
  at_creation, at_connection, at_worktree, at_docker, at_preview, when_ready, when_validated,
  when_failed, is_ready, is_awaiting, is_requested, is_closing, is_closed, is_failed,
)

-- Every event that the machine accepts moves the session along an edge of the diagram.
pub apply_agent_event-⟶ :
    (now : ℕ) (s : Session) (e : SessionAgentEvent) (t : Session)
    → apply_agent_event now s e ≡ ok t
    → s.status ⟶ t.status
unfolding apply_agent_event
apply_agent_event-⟶ now s (progress p m) t h = grind (arith, edges, phases)
apply_agent_event-⟶ now s (became_ready url) t h = grind (arith, edges, phases)
apply_agent_event-⟶ now s (recovered url) t h = grind (arith, edges, phases)
apply_agent_event-⟶ now s (done code changes resume) t h = grind (arith, edges, phases)
apply_agent_event-⟶ now s (session_closed cleaned) t h = grind (arith, edges)
apply_agent_event-⟶ now s (error m r) t h = grind (arith, edges)

module _ (now : ℕ) (s : Session) (url : String) where
  IsSettled-kept :
      {u : SessionStatus}
      → IsSettled u
      → s.status ≡ u
      → apply_agent_event now s (recovered url) ≡ ok (record s { preview_url = some url })
  unfolding apply_agent_event
  IsSettled-kept is_ready h = ground arith
  IsSettled-kept is_awaiting h = ground arith
  IsSettled-kept is_requested h = ground arith
  IsSettled-kept is_closing h = ground arith
  IsSettled-kept is_closed h = ground arith
  IsSettled-kept is_failed h = ground arith

  IsPreparing-restored :
      {u : SessionStatus}
      → IsPreparing u
      → s.status ≡ u
      → apply_agent_event now s (recovered url)
        ≡ ok (record s { status = ready; preview_url = some url; last_error = none })
  unfolding apply_agent_event
  IsPreparing-restored at_creation h = ground arith
  IsPreparing-restored at_connection h = ground arith
  IsPreparing-restored at_worktree h = ground arith
  IsPreparing-restored at_docker h = ground arith
  IsPreparing-restored at_preview h = ground arith

-- The event that takes the machine along an edge, with the state it leads to.
module _ (now : ℕ) (s : Session) where
  abbrev Reaches : SessionStatus → Type 0
  Reaches u =
      (e : SessionAgentEvent) × (t : Session) × (apply_agent_event now s e ≡ ok t) × (t.status ≡ u)

  announce :
      (p : ProgressStatus)
      → apply_agent_event now s (progress p none)
        ≡ ok (record s { status = to_status p; last_error = none })
      → Reaches (to_status p)
  announce p h = (progress p none, _, h, refl)

  resume_at : (r : ResumeStatus) → s.status ≡ agent_running → Reaches (resumed r)
  unfolding apply_agent_event
  resume_at r h = (
    done (pos 0) (some false) (some r),
    record s { status = resumed r; last_error = resume_error (some r) },
    ground arith,
    refl,
  )

  prompt_at : {u : SessionStatus} → IsPromptable u → s.status ≡ u → Reaches agent_running
  unfolding apply_agent_event
  prompt_at when_ready h = announce running_agent (ground arith)
  prompt_at when_validated h = announce running_agent (ground arith)
  prompt_at when_failed h = announce running_agent (ground arith)

  stay_at : {u : SessionStatus} → IsSettled u → s.status ≡ u → Reaches u
  unfolding apply_agent_event
  stay_at p h = (recovered "", record s { preview_url = some "" }, IsSettled-kept now s "" p h, h)

  restore_at : {u : SessionStatus} → IsPreparing u → s.status ≡ u → Reaches ready
  unfolding apply_agent_event
  restore_at p h = (
    recovered "",
    record s { status = ready; preview_url = some ""; last_error = none },
    IsPreparing-restored now s "" p h,
    refl,
  )

  -- Every edge out of the session's status is taken on some event, which the machine accepts.
  pub ⟶-apply_agent_event : {u v : SessionStatus} → u ⟶ v → s.status ≡ u → Reaches v
  unfolding apply_agent_event
  ⟶-apply_agent_event connect h = announce connecting (ground arith)
  ⟶-apply_agent_event check_out h = announce creating_worktree (ground arith)
  ⟶-apply_agent_event start_docker h = announce starting_docker (ground arith)
  ⟶-apply_agent_event start_preview h = announce starting_preview (ground arith)
  ⟶-apply_agent_event (restore p) h = restore_at p h
  ⟶-apply_agent_event (prompt p) h = prompt_at p h
  ⟶-apply_agent_event check h = announce running_checks (ground arith)
  ⟶-apply_agent_event repair h = announce running_agent (ground arith)
  ⟶-apply_agent_event resume_ready h = resume_at to_ready h
  ⟶-apply_agent_event resume_awaiting h = resume_at to_awaiting h
  ⟶-apply_agent_event validate h = announce awaiting_validation (ground arith)
  ⟶-apply_agent_event request h = announce creating_review_request (ground arith)
  ⟶-apply_agent_event publish h = announce created_review_request (ground arith)
  ⟶-apply_agent_event fail h = (error "" true, _, refl, refl)
  ⟶-apply_agent_event close h = (session_closed true, _, refl, refl)
  ⟶-apply_agent_event (stay p) h = stay_at p h
