-- ===== src/Workspaces/Tests.antt =====
-- A workspace that is registered, updated and suspended while the store refuses to save.
use pair_dock.Prelude.{String, true, false, none, some, [], ◌∷◌, ◌≡◌, refl}
use pair_dock.Prelude.Dict.{get, set, delete}
use pair_dock.Workspaces.Sandbox.{ProjectPreviewConfig, SessionWorkspace}
use pair_dock.Workspaces.{
  undo_register, undo_update, find_active, find_persisted, begin_register, begin_update,
  begin_unregister, suspend, undo, restore, fill,
}
use pair_dock.Workspaces.Machine.{
  Machine, registers, updates, suspends, save_ends, begin, meanwhile, step, restarted, Reachable,
  restart, after,
}
use pair_dock.Workspaces.Restore.{on_disk}
use pair_dock.Workspaces.Store.{written, written_as}
use pair_dock.Workspaces.Durable.{Reachable-agrees, failed_save-restores, suspended_update-revives}

-- A sandbox has a configuration, which is not written.
abbrev preview_config : ProjectPreviewConfig
preview_config = record {
  runtime = none;
  setup_command = none;
  prepare_command = none;
  dependency_cache = none;
  sandbox = none;
  tunnel = none;
  healthcheck_timeout_ms = none;
  healthcheck_interval_ms = none;
}

abbrev workspace : String → SessionWorkspace
workspace branch = record {
  repository_path = "/repo";
  worktree_path = "/w";
  branch_name = branch;
  session_id = "s1";
  project_key = "app";
  model_id = none;
  sandbox_ref = some (record {
    id = "box";
    session_id = "s1";
    healthcheck_url = "http://localhost:3000";
    preview_config = some preview_config;
    metadata = none;
  });
  tunnel_ref = none;
  preview_url = none;
}

abbrev holding : SessionWorkspace → Machine
holding w = record {
  registry = record { workspaces = ("s1", w) ∷ []; persisted_workspaces = ("s1", w) ∷ [] };
  saving = none;
  disk = written (w ∷ []);
}

abbrev registering : Machine
registering = record (restarted []) {
  registry = (holding (workspace "a")).registry;
  saving = some (record { undo = undo_register "s1" none false; contents = workspace "a" ∷ [] });
}

abbrev updating : Machine
updating = record (holding (workspace "a")) {
  registry = (holding (workspace "b")).registry;
  saving =
      some (record { undo = undo_update "s1" (workspace "a") true; contents = workspace "b" ∷ [] });
}

steps :
    (step (registers (workspace "a")) (restarted []) ≡ some registering)
    × (step (save_ends true) registering ≡ some (holding (workspace "a")))
    × (step (save_ends false) registering ≡ some (restarted []))
    × (step (updates (workspace "b")) (holding (workspace "a")) ≡ some updating)
    × (step (save_ends false) updating ≡ some (holding (workspace "a")))
unfolding step begin meanwhile begin_register begin_update begin_unregister suspend undo get set
    delete restore fill
steps = (refl, refl, refl, refl, refl)

registered : Reachable (holding (workspace "a"))
registered =
    after
      (after (restart [] (record { distinct = tt; plain = tt })) (registers (workspace "a"))
        steps.0)
      (save_ends true) steps.1

Reachable-agrees_example :
    ((id : String) (w : SessionWorkspace)
      → find_active id (holding (workspace "a")).registry ≡ some w
      → find_persisted id (holding (workspace "a")).registry ≡ some w)
    × ((holding (workspace "a")).saving ≡ none
        → (id : String)
        → on_disk id (holding (workspace "a")).disk
          ≡ written_as (find_persisted id (holding (workspace "a")).registry))
Reachable-agrees_example = Reachable-agrees (holding (workspace "a")) registered

failed_save-restores_example :
    (m' : Machine) × (step (save_ends false) updating ≡ some m')
    × (m'.saving ≡ none)
    × ((id : String) → on_disk id updating.disk ≡ written_as (find_persisted id m'.registry))
    × (m'.disk ≡ updating.disk)
failed_save-restores_example =
    failed_save-restores updating
      (record { undo = undo_update "s1" (workspace "a") true; contents = workspace "b" ∷ [] })
      (after registered (updates (workspace "b")) (steps.3)) refl

suspended_update-revives_example :
    (m1 m2 m3 : Machine) × (step (updates (workspace "b")) (holding (workspace "a")) ≡ some m1)
    × (step (suspends "s1") m1 ≡ some m2)
    × (find_active "s1" m2.registry ≡ none)
    × (step (save_ends false) m2 ≡ some m3)
    × (find_active "s1" m3.registry ≡ some (workspace "a"))
unfolding get
suspended_update-revives_example =
    suspended_update-revives (holding (workspace "a")) (workspace "b") (workspace "a") refl refl
      refl
