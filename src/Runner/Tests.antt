-- ===== src/Runner/Tests.antt =====
-- An agent whose world is what its store holds: a session that is prepared, closed and restarted.
use pair_dock.Prelude.{
  String, true, false, none, some, List, [], ◌∷◌, ◌≡◌, ◌≢◌, refl, ok, err, All, arith, eq_iff,
}
use pair_dock.Prelude.Dict.{get, set, delete}
use pair_dock.Prelude.Decimal.{pos}
use pair_dock.Session.Start.Create.{PrepareCommand}
use pair_dock.Workspaces.Sandbox.{SandboxRef, PreviewTunnelRef, SessionWorkspace}
use pair_dock.Workspaces.{find_persisted, begin_register, begin_update, begin_unregister, undo}
use pair_dock.Workspaces.Begin.{IsSound}
use pair_dock.Runner.Ports.{RunnerPorts, thrown, delete_local}
use pair_dock.Runner.{
  Host, Running, register, update, unregister, start_sandbox, stop_sandbox, open_tunnel,
  close_tunnel,
}
use pair_dock.Runner.Cleanup.{close}
use pair_dock.Runner.Prepare.{prepare}
use pair_dock.Runner.Inputs.{has_preview}
use pair_dock.Runner.Recovery.{restore}
use pair_dock.Runner.Accounts.{Accounted, SaveWorks}
use pair_dock.Runner.Closed.{close-leaves_nothing}
use pair_dock.Runner.Ready.{prepare-records}
use pair_dock.Runner.Runs.{InOrder, prepares, closes, perform_all, perform_all-InOrder}
use pair_dock.Workspaces.Store.{written}
use pair_dock.Runner.Restart.{restore-InOrder}

abbrev sandbox : SandboxRef
sandbox = record {
  id = "b1";
  session_id = "s1";
  healthcheck_url = "http://localhost";
  preview_config = some (record {
    runtime = none;
    setup_command = none;
    prepare_command = none;
    dependency_cache = none;
    sandbox = none;
    tunnel = none;
    healthcheck_timeout_ms = none;
    healthcheck_interval_ms = none;
  });
  metadata = none;
}

abbrev tunnel : PreviewTunnelRef
tunnel = record { id = "t1"; session_id = "s1"; public_url = "https://p"; metadata = none }

-- Every call answers, and the store keeps what it writes.
abbrev pub local_ports : RunnerPorts
local_ports = record {
  World = List SessionWorkspace;
  on_progress = λ id status world. (world, ok tt);
  prepare_worktree = λ command path world. (
    world,
    ok (record { repository_path = path; worktree_path = "/w"; branch_name = command.branch_name }),
  );
  validate_prepared = λ w path world. (world, ok tt);
  cleanup_worktree = λ w mode world. (world, ok tt);
  push_worktree_branch = λ w message world. (world, ok w.branch_name);
  run_host_command = λ input world. (world, ok (record { exit_code = pos 0; logs = "" }));
  prepare_companion = λ input world. (world, ok none);
  start_companion = λ url id world. (world, ok tt);
  stop_companion = λ all id world. (world, ok tt);
  start_sandbox = λ input world. (world, ok sandbox);
  stop_sandbox = λ ref config world. (world, ok tt);
  wait_until_ready = λ input world. (world, ok "http://localhost");
  open_tunnel = λ input world. (world, ok tunnel);
  close_tunnel = λ ref config world. (world, ok tt);
  save = λ contents world. (written contents, ok tt);
  load = λ world. (world, ok world);
  reconcile_orphans = λ owner world. (world, ok tt);
  project_paths = ("app", "/repo") ∷ [];
  preview_configs = [];
  runtime_owner_id = none;
}

abbrev command : PrepareCommand
command = record {
  session_id = "s1";
  project_key = "app";
  branch_name = "b";
  base_branch = "main";
  model_id = "m";
  reasoning_effort = "low";
}

abbrev pub ready : SessionWorkspace
ready = record {
  repository_path = "/repo";
  worktree_path = "/w";
  branch_name = "b";
  session_id = "s1";
  project_key = "app";
  model_id = some "m";
  sandbox_ref = some sandbox;
  tunnel_ref = some tunnel;
  preview_url = some "https://p";
}

abbrev pub idle : Host (List SessionWorkspace)
idle = record {
  world = [];
  registry = record { workspaces = []; persisted_workspaces = [] };
  sandboxes = [];
  tunnels = [];
}

abbrev pub busy : Host (List SessionWorkspace)
busy = record {
  world = written (ready ∷ []);
  registry = record { workspaces = ("s1", ready) ∷ []; persisted_workspaces = ("s1", ready) ∷ [] };
  sandboxes = record { owner = "s1"; ref_id = "b1" } ∷ [];
  tunnels = record { owner = "s1"; ref_id = "t1" } ∷ [];
}

runs :
    (prepare local_ports command idle ≡ (busy, ok ready))
    × (close local_ports "s1" delete_local busy ≡ (idle, ok tt))
unfolding prepare close register update unregister start_sandbox stop_sandbox open_tunnel
    close_tunnel begin_register begin_update begin_unregister undo get set delete
runs = (refl, refl)

idle-IsSound : IsSound idle.registry
unfolding get
idle-IsSound = record { agrees = λ i w h. h; keyed = λ i w h. cc; distinct = tt }

idle-Accounted : Accounted idle
idle-Accounted = record { sandboxes = tt; tunnels = tt }

prepare-records_example :
    (find_persisted "s1" busy.registry ≡ some ready)
    × (has_preview ready ≡ true)
    × Accounted busy
    × ((i : String) → i ≢ "s1" → find_persisted i busy.registry ≡ find_persisted i idle.registry)
prepare-records_example =
    prepare-records local_ports command idle idle-IsSound idle-Accounted runs.0

pub busy-IsSound : IsSound busy.registry
unfolding get
busy-IsSound = record {
  agrees = λ i w h. h;
  keyed = λ i w h. ground (arith, eq_iff "s1" i);
  distinct = (tt, tt);
}

pub busy-Accounted : Accounted busy
unfolding get
busy-Accounted = record { sandboxes = (refl, tt); tunnels = (refl, tt) }

close-leaves_nothing_example :
    (find_persisted "s1" idle.registry ≡ none)
    × All (λ (r : Running). r.owner ≢ "s1") idle.sandboxes
    × All (λ (r : Running). r.owner ≢ "s1") idle.tunnels
    × ((i : String) → i ≢ "s1" → find_persisted i idle.registry ≡ find_persisted i busy.registry)
    × Accounted idle
close-leaves_nothing_example =
    close-leaves_nothing local_ports "s1" delete_local busy busy-IsSound busy-Accounted runs.1

store_works : SaveWorks local_ports
store_works contents world = refl

perform_all-InOrder_example :
    InOrder (perform_all local_ports (prepares command ∷ closes "s1" delete_local ∷ []) idle)
perform_all-InOrder_example =
    perform_all-InOrder local_ports store_works (prepares command ∷ closes "s1" delete_local ∷ [])
      idle (record { sound = idle-IsSound; accounted = idle-Accounted })

restore-InOrder_example : InOrder (restore local_ports busy).0
restore-InOrder_example =
    restore-InOrder local_ports store_works busy
      (record { sound = busy-IsSound; accounted = busy-Accounted }) refl

-- A store that is full once a sandbox is to be recorded, and a sandbox that does not stop.
abbrev failing_ports : RunnerPorts
failing_ports = record local_ports {
  stop_sandbox = λ ref config world. (world, err (thrown "no answer" false));
  save = λ contents world. elim contents [
    | [] ↦ ([], ok tt)
    | w ∷ others ↦ elim w.sandbox_ref [
      | none ↦ (w ∷ others, ok tt)
      | some _ ↦ (world, err (thrown "disk full" false))
    ]
  ];
}

abbrev failed : Host (List SessionWorkspace)
failed = (prepare failing_ports command idle).0

-- The sandbox runs, no workspace refers to it, and a close that returns does not stop it.
leaks :
    (failed.sandboxes ≡ record { owner = "s1"; ref_id = "b1" } ∷ [])
    × (find_persisted "s1" failed.registry
        ≡ some (record ready { sandbox_ref = none; tunnel_ref = none; preview_url = none }))
    × ((close failing_ports "s1" delete_local failed).1 ≡ ok tt)
    × ((close failing_ports "s1" delete_local failed).0.sandboxes ≡ failed.sandboxes)
unfolding prepare close register update unregister start_sandbox stop_sandbox open_tunnel
    close_tunnel begin_register begin_update begin_unregister undo get set delete
leaks = (refl, refl, refl, refl)
