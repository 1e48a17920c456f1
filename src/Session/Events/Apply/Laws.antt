-- ===== src/Session/Events/Apply/Laws.antt =====
-- The stored rows follow the session's state machine.
use pair_dock.Prelude.{
  ℕ, String, Option, some, [], ◌∷◌, ◌++◌, ◌==◌, ◌≡◌, refl, ◌∙◌, ok, if◌then◌else◌, eq_refl, arith,
}
use pair_dock.Domain.{Session}
use pair_dock.Session.Machine.Effects.{SameIdentity, apply_agent_event-SameIdentity}
use pair_dock.Session.Events.{
  SessionEvent, agent, checks_result, resolve_event, settle_checks, next_session,
}
use pair_dock.Session.Events.Store.{EventInput, Repositories}
use pair_dock.Session.Events.Apply.{record_checks, status_update, apply}

-- What a service writes of a session, on top of the stored one.
abbrev written : Session → Session → Session
written s t = record s {
  status = t.status;
  last_error = t.last_error;
  preview_url = t.preview_url;
  closed_at = t.closed_at;
}

written_of_same : (s t : Session) → SameIdentity s t → written s t ≡ t
written_of_same s t i = ground arith

-- The next session differs from the stored one in the fields that are written, and in no other.
next_session-written :
    (useful_line : String → Option String) (now : ℕ) (latest : _) (s t : Session) (e : SessionEvent)
    → next_session useful_line now latest s e ≡ ok t
    → written s t ≡ t
unfolding next_session settle_checks
next_session-written useful_line now latest s t (checks_result p) h = ground arith
next_session-written useful_line now latest s t (agent e) h =
    written_of_same s t (apply_agent_event-SameIdentity now s (resolve_event latest e) t h).0

module _ (useful_line : String → Option String) (R : Repositories) (now : ℕ) (id : String)
    (event : SessionEvent) (agent_id : Option String) (db : R.Db) where
  open R use {Db, find_session, find_latest_validation, list_events, create_event, update_status}

  -- The entry of the event log.
  abbrev entry : EventInput
  entry = record { session_id = id; agent_id = agent_id; event = event }

  logged : Db
  logged = create_event entry (record_checks useful_line R id event db)

  find-record_checks :
      (e : SessionEvent) (i : String)
      → find_session i (record_checks useful_line R id e db) ≡ find_session i db
  find-record_checks (checks_result p) i = R.find-create_validation _ i db
  find-record_checks (agent e) i = refl

  list-record_checks :
      (e : SessionEvent) (i : String)
      → list_events i (record_checks useful_line R id e db) ≡ list_events i db
  list-record_checks (checks_result p) i = R.list-create_validation _ i db
  list-record_checks (agent e) i = refl

  find-logged : (i : String) → find_session i logged ≡ find_session i db
  unfolding logged
  find-logged i = R.find-create_event entry i _ ∙ find-record_checks event i

  list-logged : list_events id logged ≡ list_events id db ++ entry ∷ []
  unfolding logged
  list-logged =
      rw
        (
          R.list-create_event entry id (record_checks useful_line R id event db),
          eq_refl id,
          list-record_checks event id,
        )
        refl

  module _ (s t : Session) (found : find_session id db ≡ some s)
      (next : next_session useful_line now (find_latest_validation id db) s event ≡ ok t) where
    stored : Db
    stored = update_status (status_update useful_line R id t) logged

    find-stored :
        (i : String) → find_session i stored ≡ (if id == i then some t else find_session i db)
    unfolding stored
    find-stored i =
        let row =
          R.find-update_status (status_update useful_line R id t) i logged s
            (find-logged id ∙ found) in
        let same =
          next_session-written useful_line now (find_latest_validation id db) s t event next in
        rw (row, same, find-logged i) refl

    list-stored : list_events id stored ≡ list_events id db ++ entry ∷ []
    unfolding stored
    list-stored = R.list-update_status _ id logged ∙ list-logged

    apply-stored : apply useful_line R now id event agent_id db ≡ (stored, ok (some t))
    unfolding apply stored logged
    apply-stored = ground (arith, found, next, find-stored id, eq_refl id)

-- An event on a stored session that the state machine accepts is applied: the call returns the
-- next session, which is the stored row from then on, the other rows stay, and the event is the
-- last entry of the session's log.
pub apply_accepted :
    (useful_line : String → Option String) (R : Repositories) (now : ℕ) (id : String)
    (event : SessionEvent) (agent_id : Option String) (db : R.Db) (s t : Session)
    → R.find_session id db ≡ some s
    → next_session useful_line now (R.find_latest_validation id db) s event ≡ ok t
    → (db' : R.Db) × (apply useful_line R now id event agent_id db ≡ (db', ok (some t)))
      × ((i : String) → R.find_session i db' ≡ (if id == i then some t else R.find_session i db))
      × (R.list_events id db'
          ≡ R.list_events id db
            ++ record { session_id = id; agent_id = agent_id; event = event } ∷ [])
apply_accepted useful_line R now id event agent_id db s t found next = (
  stored useful_line R now id event agent_id db s t found next,
  apply-stored useful_line R now id event agent_id db s t found next,
  find-stored useful_line R now id event agent_id db s t found next,
  list-stored useful_line R now id event agent_id db s t found next,
)
