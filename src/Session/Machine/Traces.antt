-- ===== src/Session/Machine/Traces.antt =====
-- Sequences of events, in the order in which the machine receives them.
use pair_dock.Prelude.{
  ℕ, Bool, true, false, ◌≡◌, refl, ap, ◌⊎◌, inl, inr, List, [], ◌∷◌, ◌++◌, Result, ok, arith, ◌>>=◌,
  first_returns,
}
use pair_dock.Domain.{Session, SessionStatus}
use pair_dock.Domain.Status.{
  awaiting_pm_validation, review_request_creating, review_request_created, has_status,
}
use pair_dock.Session.Machine.{SessionAgentEvent, TransitionError, apply_agent_event}

-- The events one after the other, up to the first that is refused.
unfoldable pub run : ℕ → Session → List SessionAgentEvent → Result TransitionError Session
run now s [] = ok s
run now s (e ∷ es) = do t ← apply_agent_event now s e; run now t es

-- The statuses that lie behind the PM's validation.
abbrev pub is_requesting : SessionStatus → Bool
is_requesting = has_status (review_request_creating ∷ review_request_created ∷ [])

entry-awaiting :
    (now : ℕ) (s : Session) (e : SessionAgentEvent) (t : Session)
    → is_requesting s.status ≡ false
    → apply_agent_event now s e ≡ ok t
    → (s.status ≡ awaiting_pm_validation) ⊎ (is_requesting t.status ≡ false)
unfolding apply_agent_event
entry-awaiting now s e t early h = ground arith

-- Among the sessions that the events lead through, one awaits the PM's validation.
pub record HasAwaited (now : ℕ) (s : Session) (es : List SessionAgentEvent) : Type 0 where
  pub before : List SessionAgentEvent
  pub after : List SessionAgentEvent
  pub middle : Session
  pub split : es ≡ before ++ after
  pub reached : run now s before ≡ ok middle
  pub awaiting : middle.status ≡ awaiting_pm_validation

later :
    (now : ℕ) (s : Session) (e : SessionAgentEvent) (es : List SessionAgentEvent) (t : Session)
    → apply_agent_event now s e ≡ ok t
    → HasAwaited now t es
    → HasAwaited now s (e ∷ es)
unfolding run
later now s e es t step a = record {
  before = e ∷ a.before;
  after = a.after;
  middle = a.middle;
  split = ap (λ l. e ∷ l) a.split;
  reached = rw step a.reached;
  awaiting = a.awaiting;
}

-- Whatever events are accepted, a session that was not requesting a review and ends up there has
-- awaited the PM's validation on the way.
pub run-HasAwaited :
    (now : ℕ) (s : Session) (es : List SessionAgentEvent) (t : Session)
    → is_requesting s.status ≡ false
    → run now s es ≡ ok t
    → is_requesting t.status ≡ true
    → HasAwaited now s es
unfolding run
run-HasAwaited now s [] t early h final = absurd (ground arith)
run-HasAwaited now s (e ∷ es) t early h final =
    let (u, step, rest) = first_returns (apply_agent_event now s e) (λ u. run now u es) h in
    elim (entry-awaiting now s e u early step) [
      | inl here ↦ record {
        before = [];
        after = e ∷ es;
        middle = s;
        split = refl;
        reached = refl;
        awaiting = here;
      }
      | inr still ↦ later now s e es u step (run-HasAwaited now u es t still rest final)
    ]
