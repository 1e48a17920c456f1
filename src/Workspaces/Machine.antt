-- ===== src/Workspaces/Machine.antt =====
-- The registry of packages/local-agent/src/session/session-registry.ts with its lock and the store
-- behind it, as a machine: one locked operation at a time, a store that may refuse to save, and
-- suspensions, which take no lock, at any time.
use pair_dock.Prelude.{String, Bool, true, false, Option, none, some, List, [], ◌≡◌, ok, err}
use pair_dock.Prelude.{◌∷◌, All}
use pair_dock.Prelude.Dict.{Dict, Distinct}
use pair_dock.Workspaces.Sandbox.{SessionWorkspace}
use pair_dock.Workspaces.Store.{to_persisted_workspace, written}
use pair_dock.Workspaces.{
  SessionRegistry, Undo, list_persisted, restore, begin_register, begin_update, begin_unregister,
  suspend, undo,
}

-- The operation that holds the lock: its undo, and what it gave the store to save.
pub record Saving : Type 0 where
  pub undo : Undo
  pub contents : List SessionWorkspace

pub record Machine : Type 0 where
  pub registry : SessionRegistry
  pub saving : Option Saving
  pub disk : List SessionWorkspace

-- A load fails where the file cannot be read, or where its schema refuses it.
pub data Event : Type 0 where
  restores : (loaded : Bool) → Event
  registers : SessionWorkspace → Event
  updates : SessionWorkspace → Event
  unregisters : (id : String) → Event
  suspends : (id : String) → Event
  save_ends : (saved : Bool) → Event

-- The save begins: `persist` hands over the persisted workspaces.
abbrev pub hold : Machine → SessionRegistry × Undo → Machine
hold m (r, u) = record m {
  registry = r;
  saving = some (record { undo = u; contents = list_persisted r });
}

abbrev pub settle : Machine → Saving → Bool → Machine
settle m s true = record m { saving = none; disk = written s.contents }
settle m s false = record m { saving = none; registry = undo s.undo m.registry }

-- An event with a free lock.
unfoldable pub begin : Event → Machine → Option Machine
unfolding begin_update begin_unregister
begin (restores true) m = some (record m { registry = restore m.disk })
begin (restores false) m = some m
begin (registers w) m = some (hold m (begin_register w m.registry))
begin (updates w) m = elim (begin_update w m.registry) [
  | err e ↦ some m
  | ok held ↦ some (hold m held)
]
begin (unregisters id) m = elim (begin_unregister id m.registry) [
  | none ↦ some m
  | some held ↦ some (hold m held)
]
begin (suspends id) m = some (record m { registry = suspend id m.registry })
begin (save_ends saved) m = none

-- An event while an operation waits for the store; locked operations wait.
unfoldable pub meanwhile : Event → Saving → Machine → Option Machine
meanwhile (suspends id) s m = some (record m { registry = suspend id m.registry })
meanwhile (save_ends saved) s m = some (settle m s saved)
meanwhile _ s m = none

unfoldable pub step : Event → Machine → Option Machine
unfolding begin meanwhile
step e m = elim m.saving [ none ↦ begin e m | some s ↦ meanwhile e s m ]

-- The map that `restore` fills, with a key for each entry.
abbrev pub by_session : List SessionWorkspace → Dict SessionWorkspace
by_session [] = []
by_session (w ∷ disk) = (w.session_id, w) ∷ by_session disk

-- Of what the schema of the file checks: one entry for each session, and no field that a save leaves
-- out. The forms of identifiers and addresses are not asked for.
pub record IsState (disk : List SessionWorkspace) : Type 0 where
  pub distinct : Distinct (by_session disk)
  pub plain : All (λ w. to_persisted_workspace w ≡ w) disk

-- An agent that has just restored what is on disk.
abbrev pub restarted : List SessionWorkspace → Machine
restarted disk = record { registry = restore disk; saving = none; disk = disk }

-- The states that any interleaving of the events leads to, from a restart over any disk.
pub data Reachable : Machine → Type 0 where
  restart : (disk : List SessionWorkspace) → IsState disk → Reachable (restarted disk)
  after : {m m' : Machine} → Reachable m → (e : Event) → step e m ≡ some m' → Reachable m'
