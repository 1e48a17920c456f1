-- ===== src/Session/Events/Apply/Tests.antt =====
-- The service over an in-memory store.
use pair_dock.Prelude.{
  String, false, Option, none, some, [], ◌∷◌, ◌++◌, ◌==◌, ◌≡◌, refl, ok, err, if◌then◌else◌,
}
use pair_dock.Prelude.Decimal.{pos}
use pair_dock.Domain.Status.{agent_running, ready, closed}
use pair_dock.Session.Machine.{done, no_resume, apply_agent_event}
use pair_dock.Session.Events.{SessionEvent, agent, resolve_event, next_session}
use pair_dock.Session.Events.Apply.{apply}
use pair_dock.Session.Events.Apply.Laws.{apply_accepted}
use pair_dock.Session.Events.Memory.{Tables, in_memory, session, tables}

abbrev no_line : String → Option String
no_line logs = none

-- A prompt that changed nothing, without an earlier validation run, makes the session ready again.
unchanged : SessionEvent
unchanged = agent (done (pos 0) (some false) none)

runs :
    (next_session no_line 9 none (session agent_running) unchanged ≡ ok (session ready))
    × (next_session no_line 9 none (session closed) unchanged ≡ err (no_resume closed))
unfolding next_session resolve_event apply_agent_event unchanged
runs = (refl, refl)

apply_accepted_example :
    (db' : Tables) × (apply no_line in_memory 9 "s1" unchanged none (tables agent_running)
      ≡ (db', ok (some (session ready))))
    × ((i : String)
        → db'.sessions i
          ≡ (if "s1" == i then some (session ready) else (tables agent_running).sessions i))
    × (db'.events "s1"
        ≡ (tables agent_running).events "s1"
          ++ record { session_id = "s1"; agent_id = none; event = unchanged } ∷ [])
apply_accepted_example =
    apply_accepted no_line in_memory 9 "s1" unchanged none (tables agent_running)
      (session agent_running) (session ready) refl runs.0
