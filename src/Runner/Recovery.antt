-- ===== src/Runner/Recovery.antt =====
-- `restore`, `rebuildPreview` and `requiresDockerResources` of session-runner.ts, which run when the
-- agent starts.
use pair_dock.Prelude.{
  String, Bool, true, false, not, ◌||◌, Option, none, some, List, [], ◌∷◌, ◌++◌, any, Result, ok,
  err, ◌<>◌, has_text, or_else, if◌then◌else◌,
}
use pair_dock.Prelude.Actions.{Action, ◌>>=◌, ◌>>◌, return, throw, catch}
use pair_dock.Prelude.Dict.{get, values}
use pair_dock.Workspaces.Sandbox.{ProjectPreviewConfig, host, docker, SandboxRef, SessionWorkspace}
use pair_dock.Workspaces
use pair_dock.Workspaces.{suspend}
use pair_dock.Runner.Ports.{Failure, thrown, aggregate, error_message, RunnerPorts}
use pair_dock.Runner.{Host, Act, ask, present, update, start_sandbox}
use pair_dock.Runner.Cleanup.{remove_preview_resources}
use pair_dock.Runner.Prepare.{
  Caught, holding, with_sandbox, with_tunnel, prepare_host_workspace, expose,
}
use pair_dock.Runner.Inputs.{companion_input, sandbox_input}

pub record RecoveryFailure : Type 0 where
  pub session_id : String
  pub message : String

pub record SessionRecoveryResult : Type 0 where
  pub recovered_session_ids : List String
  pub failures : List RecoveryFailure

-- `previewUsesDockerTunnel`, for a configuration that is there.
abbrev pub uses_docker_tunnel : ProjectPreviewConfig → Bool
uses_docker_tunnel config = elim config.tunnel [
  | none ↦ true
  | some tunnel ↦ not (has_text tunnel.public_url)
]

abbrev pub runs_docker : ProjectPreviewConfig → Bool
runs_docker config = elim config.runtime [
  | none ↦ false
  | some runtime ↦ elim runtime [ host ↦ false | docker ↦ true ]
]

abbrev pub nothing_recovered : SessionRecoveryResult
nothing_recovered = record { recovered_session_ids = []; failures = [] }

abbrev pub not_configured : String → Failure
not_configured key = thrown ("Project " <> key <> " is no longer configured on this agent.") false

abbrev pub recovery_failed : Failure → Failure → Failure
recovery_failed e cleanup_error =
    aggregate (error_message e ∷ error_message cleanup_error ∷ [])
      (error_message e <> " Recovery cleanup also failed: " <> error_message cleanup_error)

module _ (P : RunnerPorts) where
  abbrev pub requires_docker_resources : Bool
  requires_docker_resources =
      any (λ config. runs_docker config || uses_docker_tunnel config) (values P.preview_configs)

  -- The two parts of the `try` block, by the value of `currentWorkspace`.
  unfoldable pub reboot_sandbox :
      Option ProjectPreviewConfig → SessionWorkspace → SessionWorkspace → Act P SandboxRef
  reboot_sandbox config workspace current =
      prepare_host_workspace P current config
      >> (ask P (
            P.prepare_companion (companion_input config workspace.project_key workspace.session_id))
          >>= λ session_config. start_sandbox P (
              sandbox_input P.runtime_owner_id (or_else workspace.model_id "recovered-session")
                workspace config session_config))

  unfoldable pub rebuild_from :
      Option ProjectPreviewConfig
      → SessionWorkspace
      → SessionWorkspace
      → Action (Host P.World) (Caught SessionWorkspace) SessionWorkspace
  unfolding reboot_sandbox
  rebuild_from config workspace current =
      holding current (reboot_sandbox config workspace current) >>= λ sandbox.
      let current1 = with_sandbox sandbox current in
      holding current1 (update P current1 >> expose P workspace sandbox config) >>= λ tunnel.
      let current2 = with_tunnel tunnel current1 in
      holding current2 (update P current2) >> return current2

  -- The `catch` block.
  abbrev pub discard :
      Option ProjectPreviewConfig → Caught SessionWorkspace → Act P SessionWorkspace
  discard config caught =
      catch (remove_preview_resources P caught.workspace config)
        (λ cleanup_error. throw (recovery_failed caught.error cleanup_error))
      >>= λ _. throw caught.error

  unfoldable pub rebuild_preview : SessionWorkspace → Act P SessionWorkspace
  unfolding rebuild_from
  rebuild_preview workspace =
      let config = get workspace.project_key P.preview_configs in
      remove_preview_resources P workspace config >>= λ current.
      catch (rebuild_from config workspace current) (discard config)

  abbrev pub recover_at : SessionWorkspace → Option String → Act P (Unit {0})
  recover_at workspace none = throw (not_configured workspace.project_key)
  recover_at workspace (some path) =
      ask P (P.validate_prepared workspace path) >> (rebuild_preview workspace >>= λ _. return tt)

  unfoldable pub recover : SessionWorkspace → Act P (Unit {0})
  unfolding rebuild_preview
  recover workspace = recover_at workspace (present (get workspace.project_key P.project_paths))

  abbrev pub recovered :
      SessionRecoveryResult
      → SessionWorkspace
      → Host P.World × Result Failure (Unit {0})
      → Host P.World × SessionRecoveryResult
  recovered result w (state, ok _) = (
    state,
    record result { recovered_session_ids = result.recovered_session_ids ++ w.session_id ∷ [] },
  )
  recovered result w (state, err e) = (
    record state { registry = suspend w.session_id state.registry },
    record result {
      failures =
          result.failures ++ record { session_id = w.session_id; message = error_message e } ∷ [];
    },
  )

  unfoldable pub recover_each :
      List SessionWorkspace
      → Host P.World × SessionRecoveryResult
      → Host P.World × SessionRecoveryResult
  unfolding recover
  recover_each [] h = h
  recover_each (w ∷ stored) h = recover_each stored (recovered h.1 w (recover w h.0))

  -- A failed reconciliation matters only to an agent that needs Docker.
  abbrev pub reconcile_for : Option String → Act P (Unit {0})
  reconcile_for none = return tt
  reconcile_for (some owner) =
      catch (ask P (P.reconcile_orphans owner))
        (λ e. if requires_docker_resources then throw e else return tt)

  abbrev pub reconcile : Act P (Unit {0})
  reconcile = reconcile_for (present P.runtime_owner_id)

  abbrev pub all_recovered : List SessionWorkspace → Act P SessionRecoveryResult
  all_recovered stored state =
      let (after, result) = recover_each stored (state, nothing_recovered) in (after, ok result)

  unfoldable pub restore : Act P SessionRecoveryResult
  unfolding recover_each
  restore = ask P P.load >>= λ stored state.
      (reconcile >> all_recovered stored) (record state { registry = Workspaces.restore stored })
