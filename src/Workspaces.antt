-- ===== src/Workspaces.antt =====
-- `SessionRegistry` of packages/local-agent/src/session/session-registry.ts: the workspaces of the
-- sessions on a developer's machine. A locked operation is two steps, the one up to
-- `await this.persist()` and the one behind it, so that what takes no lock can run between them.
pub mod Sandbox
pub mod Store
pub mod Machine
pub mod Invariant
pub mod Begin
pub mod Restore
pub mod Steps
pub mod Durable
mod Tests
use pair_dock.Prelude.{
  String, Bool, true, false, Option, none, some, List, [], ◌∷◌, if◌then◌else◌, is_some, Result, ok,
  err,
}
use pair_dock.Prelude.Dict.{Dict, get, set, delete, values}
use pair_dock.Workspaces.Sandbox.{SessionWorkspace}

-- The two maps of `SessionRegistry`.
pub record SessionRegistry : Type 0 where
  pub workspaces : Dict SessionWorkspace
  pub persisted_workspaces : Dict SessionWorkspace

-- What an operation remembers, for the `catch` behind a failed save.
pub data Undo : Type 0 where
  undo_register : (id : String) (previous : Option SessionWorkspace) (was_active : Bool) → Undo
  undo_update : (id : String) (previous : SessionWorkspace) (was_active : Bool) → Undo
  undo_unregister : (id : String) (workspace : SessionWorkspace) (was_active : Bool) → Undo

pub data UpdateError : Type 0 where
  not_persisted : (session_id : String) → UpdateError

abbrev pub is_active : String → SessionRegistry → Bool
is_active id r = is_some (get id r.workspaces)

-- `find`, `findPersisted`, `listActive` and `listPersisted`.
abbrev pub find_active : String → SessionRegistry → Option SessionWorkspace
find_active id r = get id r.workspaces

abbrev pub find_persisted : String → SessionRegistry → Option SessionWorkspace
find_persisted id r = get id r.persisted_workspaces

abbrev pub list_active : SessionRegistry → List SessionWorkspace
list_active r = values r.workspaces

abbrev pub list_persisted : SessionRegistry → List SessionWorkspace
list_persisted r = values r.persisted_workspaces

-- The loop of `restore`.
unfoldable pub fill : List SessionWorkspace → Dict SessionWorkspace → Dict SessionWorkspace
fill [] m = m
fill (w ∷ stored) m = fill stored (set w.session_id w m)

unfoldable pub restore : List SessionWorkspace → SessionRegistry
restore stored = record { workspaces = fill stored []; persisted_workspaces = fill stored [] }

unfoldable pub begin_register : SessionWorkspace → SessionRegistry → SessionRegistry × Undo
begin_register w r = (
  record {
    workspaces = set w.session_id w r.workspaces;
    persisted_workspaces = set w.session_id w r.persisted_workspaces;
  },
  undo_register w.session_id (find_persisted w.session_id r) (is_active w.session_id r),
)

abbrev pub update_known :
    SessionWorkspace → SessionWorkspace → SessionRegistry → SessionRegistry × Undo
update_known w previous r = (
  record {
    workspaces = if is_active w.session_id r then set w.session_id w r.workspaces else r.workspaces;
    persisted_workspaces = set w.session_id w r.persisted_workspaces;
  },
  undo_update w.session_id previous (is_active w.session_id r),
)

unfoldable pub begin_update :
    SessionWorkspace → SessionRegistry → Result UpdateError (SessionRegistry × Undo)
begin_update w r = elim (find_persisted w.session_id r) [
  | none ↦ err (not_persisted w.session_id)
  | some previous ↦ ok (update_known w previous r)
]

abbrev pub drop : String → SessionWorkspace → SessionRegistry → SessionRegistry × Undo
drop id w r = (
  record {
    workspaces = delete id r.workspaces;
    persisted_workspaces = delete id r.persisted_workspaces;
  },
  undo_unregister id w (is_active id r),
)

-- `none` where the source returns `null` without a save.
unfoldable pub begin_unregister : String → SessionRegistry → Option (SessionRegistry × Undo)
begin_unregister id r = elim (find_persisted id r) [ none ↦ none | some w ↦ some (drop id w r) ]

unfoldable pub suspend : String → SessionRegistry → SessionRegistry
suspend id r = record r { workspaces = delete id r.workspaces }

-- The three `catch` blocks.
unfoldable pub undo : Undo → SessionRegistry → SessionRegistry
undo (undo_register id (some previous) was_active) r = record {
  persisted_workspaces = set id previous r.persisted_workspaces;
  workspaces = if was_active then set id previous r.workspaces else delete id r.workspaces;
}
undo (undo_register id none was_active) r = record {
  workspaces = delete id r.workspaces;
  persisted_workspaces = delete id r.persisted_workspaces;
}
undo (undo_update id previous was_active) r = record {
  persisted_workspaces = set id previous r.persisted_workspaces;
  workspaces = if was_active then set id previous r.workspaces else r.workspaces;
}
undo (undo_unregister id workspace was_active) r = record {
  persisted_workspaces = set id workspace r.persisted_workspaces;
  workspaces = if was_active then set id workspace r.workspaces else r.workspaces;
}
