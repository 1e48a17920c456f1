-- ===== src/Session/Close/Laws.antt =====
-- A session is only closed once its agent has cleaned up.
use pair_dock.Prelude.{
  ℕ, String, true, false, Option, none, some, ◌==◌, ◌≡◌, ◌⊎◌, refl, sym, ap, subst, ◌∙◌, inl, inr,
  if◌then◌else◌, Result, ok, err, Bool-cases, eq_refl, arith,
}
use pair_dock.Domain.{Project, Session}
use pair_dock.Domain.Status.{created, closed, same_status}
use pair_dock.Session.Machine.{close_session}
use pair_dock.Session.Events.Store.{Repositories}
use pair_dock.Agents.Delivery.{close_command, RouteError, Hub, Network}
use pair_dock.Session.Close.{close_update, request_local_cleanup, mark_closed, close}
use pair_dock.Agents.Delivery.Laws.{IsCleaned, route-IsCleaned}

module _ (R : Repositories) (net : Network) (fold : String → String)
    (find_project : String → Option Project) (now : ℕ) (id : String) (db : R.Db) (hub : Hub)
    (s : Session) (found : R.find_session id db ≡ some s) (own : s.id ≡ id)
    (open_ : same_status s.status closed ≡ false) where
  open R use {find_session}

  -- The row of a session that has been closed.
  abbrev pub closed_row : Session
  closed_row = record s { status = closed; last_error = none; closed_at = some now }

  -- Why a session may be closed: it was never prepared, or its agent has cleaned up.
  abbrev pub HasCleaned : Hub → Type 0
  HasCleaned hub' =
      (same_status s.status created ≡ true)
      ⊎ ((p : Project) × (find_project s.project_id ≡ some p)
          × IsCleaned net p.agent_project_key (close_command s.id) hub hub')

  found_own : find_session s.id db ≡ some s
  found_own = ap (λ i. find_session i db) own ∙ found

  cleaned :
      (hub' : Hub)
      → request_local_cleanup R net fold find_project s db hub ≡ (hub', ok tt)
      → HasCleaned hub'
  unfolding request_local_cleanup
  cleaned hub' h = elim (Bool-cases (same_status s.status created)) [
    | inl fresh ↦ inl fresh
    | inr prepared ↦ inr (
        route-IsCleaned net fold (λ i. find_session i db) find_project s.id s (close_command s.id)
          hub hub' found_own (ground (arith, h, prepared)))
  ]

  closing : close_session s now ≡ record s { status = closed; closed_at = some now }
  unfolding close_session
  closing = rw open_ refl

  -- The rows behind the update.
  abbrev pub IsClosed : R.Db → Type 0
  IsClosed db' =
      (i : String) → find_session i db' ≡ (if s.id == i then some closed_row else find_session i db)

  rows-IsClosed : IsClosed (R.update_status (close_update (close_session s now)) db)
  rows-IsClosed i =
      subst
        (λ t.
          find_session i (R.update_status (close_update t) db)
          ≡ (if s.id == i then some closed_row else find_session i db))
        (sym closing)
        (R.find-update_status (close_update (record s { status = closed; closed_at = some now })) i
          db s found_own)

  own_row :
      find_session
        (close_session s now).id
        (R.update_status (close_update (close_session s now)) db)
      ≡ some closed_row
  own_row =
      subst
        (λ t.
          find_session t.id (R.update_status (close_update (close_session s now)) db)
          ≡ some closed_row)
        (sym closing)
        (rows-IsClosed s.id
          ∙ ap (λ b. if b then some closed_row else find_session s.id db) (eq_refl s.id))

  -- What a close leaves behind: the session is closed behind its clean-up, or nothing is written.
  abbrev pub Outcome : Hub × R.Db × Result RouteError (Option Session) → Type 0
  Outcome (hub', db', ok t) = HasCleaned hub' × (t ≡ some closed_row) × IsClosed db'
  Outcome (hub', db', err e) = db' ≡ db

  marked-Outcome :
      (q : Hub × Result RouteError (Unit {0}))
      → request_local_cleanup R net fold find_project s db hub ≡ q
      → Outcome (mark_closed R net fold find_project now s db q)
  marked-Outcome (hub', ok u) h = (cleaned hub' h, own_row, rows-IsClosed)
  marked-Outcome (hub', err e) h = refl

  close-marks :
      close R net fold find_project now id db hub
      ≡ mark_closed R net fold find_project now s db
          (request_local_cleanup R net fold find_project s db hub)
  unfolding close
  close-marks = ground (arith, found, open_)

  -- A session that is stored under its own id and is not closed is only closed if it was never
  -- prepared or if its agent, by its project, has accepted the command to clean up; then its row is
  -- closed, without an error and with its closing date, and the other rows stay. A close that throws
  -- writes nothing.
  pub close-Outcome : Outcome (close R net fold find_project now id db hub)
  close-Outcome =
      subst Outcome (sym close-marks)
        (marked-Outcome (request_local_cleanup R net fold find_project s db hub) refl)
