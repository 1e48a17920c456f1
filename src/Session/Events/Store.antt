-- ===== src/Session/Events/Store.antt =====
-- The repositories behind apps/api/src/persistence/ports that the session services use, as an
-- interface: Prisma and PostgreSQL are not part of the repository. The laws say what a table
-- gives: a row that is written is read back, and the other rows stay.
use pair_dock.Prelude.{
  ℕ, String, Option, some, List, [], ◌∷◌, ◌++◌, ◌==◌, ◌≡◌, if◌then◌else◌, Result, ok, err, or_else,
}
use pair_dock.Domain.{Session, SessionStatus, ValidationRun}
use pair_dock.Session.Events.{SessionEvent}

-- The argument of `updateStatus`; an absent field is `none`, and `null` is `some none`.
pub record StatusUpdate : Type 0 where
  pub id : String
  pub status : SessionStatus
  pub last_error : Option (Option String)
  pub preview_url : Option (Option String)
  pub closed_at : Option (Option ℕ)

-- The row behind `SessionsRepositoryAdapter.updateStatus`: absent fields keep their values.
abbrev pub updated : StatusUpdate → Session → Session
updated u s = record s {
  status = u.status;
  last_error = or_else u.last_error s.last_error;
  preview_url = or_else u.preview_url s.preview_url;
  closed_at = or_else u.closed_at s.closed_at;
}

-- `CreateValidationRunInput`, without the fields that the database fills.
pub record ValidationInput : Type 0 where
  pub session_id : String
  pub status : String
  pub build_status : Option String
  pub test_status : Option String
  pub lint_status : Option String
  pub preview_status : Option String
  pub logs_ref : Option String

-- `CreateAgentEventInput`, with the event for its type and payload.
pub record EventInput : Type 0 where
  pub session_id : String
  pub agent_id : Option String
  pub event : SessionEvent

pub record Repositories : Type 1 where
  pub Db : Type 0
  pub find_session : String → Db → Option Session
  pub update_status : StatusUpdate → Db → Db
  pub find_latest_validation : String → Db → Option ValidationRun
  pub create_validation : ValidationInput → Db → Db
  pub list_events : String → Db → List EventInput
  pub create_event : EventInput → Db → Db
  pub find-update_status :
      (u : StatusUpdate) (i : String) (db : Db) (s : Session)
      → find_session u.id db ≡ some s
      → find_session i (update_status u db)
        ≡ (if u.id == i then some (updated u s) else find_session i db)
  pub find-create_validation :
      (v : ValidationInput) (i : String) (db : Db)
      → find_session i (create_validation v db) ≡ find_session i db
  pub find-create_event :
      (e : EventInput) (i : String) (db : Db)
      → find_session i (create_event e db) ≡ find_session i db
  pub list-update_status :
      (u : StatusUpdate) (i : String) (db : Db)
      → list_events i (update_status u db) ≡ list_events i db
  pub list-create_validation :
      (v : ValidationInput) (i : String) (db : Db)
      → list_events i (create_validation v db) ≡ list_events i db
  pub list-create_event :
      (e : EventInput) (i : String) (db : Db)
      → list_events i (create_event e db)
        ≡ (if e.session_id == i then list_events i db ++ e ∷ [] else list_events i db)
  pub latest-update_status :
      (u : StatusUpdate) (i : String) (db : Db)
      → find_latest_validation i (update_status u db) ≡ find_latest_validation i db
  pub latest-create_event :
      (e : EventInput) (i : String) (db : Db)
      → find_latest_validation i (create_event e db) ≡ find_latest_validation i db
  pub latest-create_validation :
      (v : ValidationInput) (db : Db)
      → (run : ValidationRun) × (find_latest_validation v.session_id (create_validation v db)
          ≡ some run)
        × (run.status ≡ v.status)

-- `execute` of apps/api/src/persistence/adapters/unit-of-work.ts: the writes of a work that
-- throws are rolled back.
abbrev pub execute {ℓ κ} :
    {D : Type 0} {E : Type ℓ} {A : Type κ} → (D → Result E (A × D)) → D → D × Result E A
execute work db = elim (work db) [ ok (a, db') ↦ (db', ok a) | err e ↦ (db, err e) ]
