-- ===== src/Session/Close.antt =====
-- apps/api/src/sessions/session-close.service.ts, with its router.
pub mod Laws
mod Tests
use pair_dock.Prelude.{
  ℕ, String, Bool, true, false, Option, none, some, if◌then◌else◌, Result, ok, err,
}
use pair_dock.Domain.{Project, Session}
use pair_dock.Domain.Status.{created, closed, same_status}
use pair_dock.Session.Machine.{close_session}
use pair_dock.Session.Events.Store.{StatusUpdate, Repositories}
use pair_dock.Agents.Delivery.{
  Command, close_command, RouteError, session_not_found, Hub, Network, route_to_owning_agent,
}

-- The argument of `updateStatus`, which says nothing of the preview.
abbrev pub close_update : Session → StatusUpdate
close_update next = record {
  id = next.id;
  status = next.status;
  last_error = some none;
  preview_url = none;
  closed_at = some next.closed_at;
}

module _ (R : Repositories) (net : Network) (fold : String → String)
    (find_project : String → Option Project) where
  open R use {Db, find_session, update_status}

  -- `requestLocalCleanup`: a session that was never prepared has nothing to clean up.
  unfoldable pub request_local_cleanup : Session → Db → Hub → Hub × Result RouteError (Unit {0})
  request_local_cleanup s db hub =
      if same_status s.status created
      then (hub, ok tt)
      else route_to_owning_agent net fold (λ id. find_session id db) find_project true s.id
          (close_command s.id) hub

  -- What follows the clean-up.
  abbrev pub mark_closed :
      ℕ
      → Session
      → Db
      → Hub × Result RouteError (Unit {0})
      → Hub × Db × Result RouteError (Option Session)
  mark_closed now s db (hub, err e) = (hub, db, err e)
  mark_closed now s db (hub, ok _) =
      let next = close_session s now in
      let db' = update_status (close_update next) db in (hub, db', ok (find_session next.id db'))

  -- `closeSession`.
  unfoldable pub close : ℕ → String → Db → Hub → Hub × Db × Result RouteError (Option Session)
  unfolding request_local_cleanup
  close now id db hub = elim (find_session id db) [
    | none ↦ (hub, db, err session_not_found)
    | some s ↦
        if same_status s.status closed
        then (hub, db, ok (some s))
        else mark_closed now s db (request_local_cleanup s db hub)
  ]
