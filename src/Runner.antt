-- ===== src/Runner.antt =====
-- `SessionRunner` of packages/local-agent/src/session/session-runner.ts: its state and the calls
-- that change it. The sandboxes and tunnels that run are those that a start has answered and no
-- stop has; the ports do not see these two lists. Operations on one session are queued by its lock, so each
-- is one action; the messages of the logger are left out.
pub mod Ports
pub mod Cleanup
pub mod Inputs
pub mod Prepare
pub mod Recovery
pub mod Accounts
pub mod Saves
pub mod Owned
pub mod Started
pub mod Closing
pub mod Closed
pub mod Prepared
pub mod Outcomes
pub mod Ready
pub mod Removing
pub mod Rebuilt
pub mod Runs
pub mod Restart
pub mod Healthcheck
pub mod Tests
use pair_dock.Prelude.{
  String, Bool, true, false, not, Option, none, some, List, ◌∷◌, ◌==◌, keep, Result, ok, err, ◌<>◌,
  truthy, has_text,
}
use pair_dock.Prelude.Actions.{Action}
use pair_dock.Prelude.Dict.{get}
use pair_dock.Workspaces.Sandbox.{
  ProjectPreviewConfig, SandboxRef, PreviewTunnelRef, SessionWorkspace,
}
use pair_dock.Workspaces.{
  SessionRegistry, Undo, not_persisted, find_active, list_persisted, begin_register, begin_update,
  begin_unregister, undo,
}
use pair_dock.Runner.Ports.{
  Failure, thrown, RunnerPorts, SandboxStartInput, PreviewTunnelOpenInput, CheckCommandResult,
}

-- A sandbox or a tunnel, and the session that it was started for.
pub record Running : Type 0 where
  pub owner : String
  pub ref_id : String

pub record Host (World : Type 0) : Type 0 where
  pub world : World
  pub registry : SessionRegistry
  pub sandboxes : List Running
  pub tunnels : List Running

abbrev pub Held : Type 0
Held = SessionRegistry × Undo

abbrev pub stopped : String → List Running → List Running
stopped ref_id running = keep (λ r. not (r.ref_id == ref_id)) running

-- An optional text in a test: an empty one counts as none.
abbrev pub present : Option String → Option String
present none = none
present (some text) = elim (truthy text) [ true ↦ some text | false ↦ none ]

module _ {W : Type 0} where
  abbrev pub settle {ℓ} :
      {A : Type ℓ}
      → Host W
      → (A → Host W → Host W)
      → W × Result Failure A
      → Host W × Result Failure A
  settle host seen (w, ok a) = (seen a (record host { world = w }), ok a)
  settle host seen (w, err e) = (record host { world = w }, err e)

  -- The end of a save: what was begun stands, or is undone.
  abbrev pub saved :
      Held → Host W → W × Result Failure (Unit {0}) → Host W × Result Failure (Unit {0})
  saved held host (w, ok _) = (record host { world = w; registry = held.0 }, ok tt)
  saved held host (w, err e) = (record host { world = w; registry = undo held.1 held.0 }, err e)

module _ (P : RunnerPorts) where
  abbrev pub Act : Type 0 → Type 0
  Act A = Action (Host P.World) Failure A

  -- A call of a port that starts and stops nothing.
  abbrev pub ask : {A : Type 0} → (P.World → P.World × Result Failure A) → Act A
  ask call host = settle host (λ _ after. after) (call host.world)

  abbrev pub save_begun : Held → Act (Unit {0})
  save_begun held host = saved held host (P.save (list_persisted held.0) host.world)

  -- `register`, `update` and `unregister` of the registry, with their saves.
  unfoldable pub register : SessionWorkspace → Act (Unit {0})
  register w host = save_begun (begin_register w host.registry) host

  unfoldable pub update : SessionWorkspace → Act (Unit {0})
  update w host = elim (begin_update w host.registry) [
    | ok held ↦ save_begun held host
    | err (not_persisted id) ↦
        (host, err (thrown ("Session " <> id <> " is not persisted on this agent.") false))
  ]

  unfoldable pub unregister : String → Act (Unit {0})
  unregister id host = elim (begin_unregister id host.registry) [
    | none ↦ (host, ok tt)
    | some held ↦ save_begun held host
  ]

  unfoldable pub start_sandbox : SandboxStartInput → Act SandboxRef
  start_sandbox input host =
      settle host
        (λ ref after. record after {
          sandboxes = record { owner = input.session_id; ref_id = ref.id } ∷ after.sandboxes;
        })
        (P.start_sandbox input host.world)

  unfoldable pub stop_sandbox : SandboxRef → Option ProjectPreviewConfig → Act (Unit {0})
  stop_sandbox ref config host =
      settle host (λ _ after. record after { sandboxes = stopped ref.id after.sandboxes })
        (P.stop_sandbox ref config host.world)

  unfoldable pub open_tunnel : PreviewTunnelOpenInput → Act PreviewTunnelRef
  open_tunnel input host =
      settle host
        (λ ref after. record after {
          tunnels = record { owner = input.session_id; ref_id = ref.id } ∷ after.tunnels;
        })
        (P.open_tunnel input host.world)

  unfoldable pub close_tunnel : PreviewTunnelRef → Option ProjectPreviewConfig → Act (Unit {0})
  close_tunnel ref config host =
      settle host (λ _ after. record after { tunnels = stopped ref.id after.tunnels })
        (P.close_tunnel ref config host.world)

  -- `pushBranch` and `runCommand`.
  unfoldable pub push_branch : String → String → Act String
  push_branch id commit_message host = elim (find_active id host.registry) [
    | none ↦ (host, err (thrown ("Session " <> id <> " is not prepared on this agent.") false))
    | some w ↦ ask (P.push_worktree_branch w commit_message) host
  ]

  unfoldable pub run_command : String → String → Act CheckCommandResult
  run_command id command host = elim (find_active id host.registry) [
    | none ↦ (host, err (thrown ("Session " <> id <> " has no active worktree.") false))
    | some w ↦
        ask
          (P.run_host_command
            (record { command = command; session_id = id; worktree_path = w.worktree_path }))
          host
  ]
