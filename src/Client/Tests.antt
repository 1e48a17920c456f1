-- ===== src/Client/Tests.antt =====
-- A client on the host of the runner's tests, whose backend accepts every event.
use pair_dock.Prelude.{true, false, ◌≡◌, refl, ok, err}
use pair_dock.Prelude.Dict.{get, set, delete}
use pair_dock.Workspaces.{begin_register, begin_update, begin_unregister, undo}
use pair_dock.Runner.Ports.{RunnerPorts, thrown, delete_local}
use pair_dock.Runner.{
  Host, register, update, unregister, start_sandbox, stop_sandbox, open_tunnel, close_tunnel,
  push_branch,
}
use pair_dock.Runner.Cleanup.{close}
use pair_dock.Runner.Tests.{local_ports, busy, idle, busy-IsSound, busy-Accounted}
use pair_dock.Client.{
  ClientPorts, Client, ClientStatus, accepts, accepted, session_close, git_push_branch, on_message,
}
use pair_dock.Client.Laws.{LeavesNothing, accepted_close-LeavesNothing}
use pair_dock.Client.Pushes.{push_report, told, push-acknowledged}

-- No remote takes a push.
abbrev offline : RunnerPorts
offline = record local_ports {
  push_worktree_branch = λ w message world. (world, err (thrown "no remote" false));
}

abbrev ports : ClientPorts
ports = record {
  runner = offline;
  emit = λ event world. (world, accepts);
  run_prompt = λ input world. (world, ok tt);
  cancel_prompt = λ id world. (world, ok tt);
  run_readiness = λ key id world. (world, ok "");
  redact = λ text. text;
  prevent_stop_while_busy = true;
}

abbrev on : Host (offline.World) → Client (offline.World)
on host = record {
  host = host;
  connected = true;
  stopping = false;
  active_commands = 0;
  connection_status = ClientStatus.online;
}

closes : on_message ports (session_close "s1" delete_local) (on busy) ≡ (on idle, accepted)
unfolding on_message close register update unregister start_sandbox stop_sandbox open_tunnel
    close_tunnel begin_register begin_update begin_unregister undo get set delete
closes = refl

accepted_close-LeavesNothing_example : LeavesNothing ports "s1" idle
accepted_close-LeavesNothing_example =
    accepted_close-LeavesNothing ports "s1" delete_local (on busy) busy-IsSound busy-Accounted
      closes

push-acknowledged_example : on_message ports (git_push_branch "s1" "work") (on busy) ≡ (
  told ports
      (push_report ports "s1" (push_branch offline "s1" "work" busy).1)
      (record (on busy) { host = (push_branch offline "s1" "work" busy).0 }),
  accepted,
)
push-acknowledged_example =
    push-acknowledged ports (λ event world. refl) "s1" "work" (on busy) refl refl
