-- ===== src/Runner/Rebuilt.antt =====
-- A preview that is rebuilt is recorded, and a recovery that fails keeps the account.
use pair_dock.Prelude.{String, true, Option, none, some, ◌≡◌, Result, ok, err, is_some, or_else}
use pair_dock.Prelude.Dict.{get}
use pair_dock.Prelude.Actions.{
  Action, After, After-map, continue, continue-After, rescue, catch, throw, return, ◌>>=◌, ◌>>◌,
}
use pair_dock.Workspaces.Sandbox.{ProjectPreviewConfig, SandboxRef, SessionWorkspace}
use pair_dock.Workspaces.{SessionRegistry, find_persisted}
use pair_dock.Runner.Ports.{Failure, RunnerPorts}
use pair_dock.Runner.{Host, ask, update, present, start_sandbox}
use pair_dock.Runner.Cleanup.{remove_preview_resources}
use pair_dock.Runner.Prepare.{
  Caught, holding, with_sandbox, with_tunnel, expose, prepare_host_workspace,
}
use pair_dock.Runner.Inputs.{companion_input, sandbox_input}
use pair_dock.Runner.Recovery.{
  reboot_sandbox, rebuild_from, recovery_failed, discard, rebuild_preview, recover_at, recover,
}
use pair_dock.Runner.Accounts.{SaveWorks}
use pair_dock.Runner.Owned.{Owns, Holds, update-Holds, ask-Holds}
use pair_dock.Runner.Started.{start_sandbox-Starts}
use pair_dock.Runner.Closing.{RefersToNothing}
use pair_dock.Runner.Closed.{IsKept, Holds-IsKept}
use pair_dock.Runner.Prepared.{SandboxUp, TunnelUp, prepare_host-Both, ask_then, expose-Starts}
use pair_dock.Runner.Outcomes.{holding_then}
use pair_dock.Runner.Removing.{Empties, remove-Empties}

module _ (P : RunnerPorts) (id : String) (before : SessionRegistry) where
  abbrev Rebuilding : Type 0
  Rebuilding = Action (Host P.World) (Caught SessionWorkspace) SessionWorkspace

  abbrev Stands : SessionWorkspace → Host P.World → Type 0
  Stands = Holds P id before

  abbrev Rebuilds : Host P.World × Result (Caught SessionWorkspace) SessionWorkspace → Type 0
  Rebuilds = After Stands (λ caught s. Stands caught.workspace s)

  abbrev Ends :
      {A : Type 0} → (A → Host P.World → Type 0) → Host P.World × Result Failure A → Type 0
  Ends Q = After Q (λ _ s. IsKept P id before s)

  update_then :
      {B : Type 0} (w : SessionWorkspace) (R : B → Host P.World → Type 0)
      (next : Action (Host P.World) Failure B) (host : Host P.World)
      → Owns P id before w host
      → (SaveWorks P → is_some (find_persisted id host.registry) ≡ true)
      → ((s : Host P.World) → Stands w s → After R (λ _ s'. Stands w s') (next s))
      → After R (λ _ s'. Stands w s') (continue (update P w host) (λ _. next))
  update_then w R next host o known rest =
      continue-After (λ _ s. Stands w s) R (λ _ s. Stands w s) (update P w host) (λ _. next)
        (update-Holds P id before w host o known) (λ _ s held. rest s held)

  module _ (config : Option ProjectPreviewConfig) (workspace : SessionWorkspace) where
    reboot_sandbox-Up :
        (current : SessionWorkspace) (host : Host P.World)
        → workspace.session_id ≡ id
        → current.sandbox_ref ≡ none
        → Stands current host
        → After
            (SandboxUp P id before current)
            (λ _ s. Stands current s)
            (reboot_sandbox P config workspace current host)
    unfolding reboot_sandbox
    reboot_sandbox-Up current host own free h =
        let input =
          sandbox_input P.runtime_owner_id (or_else workspace.model_id "recovered-session")
            workspace config in
        let asking = companion_input config workspace.project_key workspace.session_id in
        continue-After (λ _ s. Stands current s) (SandboxUp P id before current)
          (λ _ s. Stands current s) (prepare_host_workspace P current config host)
          (λ _.
            ask P (P.prepare_companion asking) >>= λ own_config. start_sandbox P (input own_config))
          (prepare_host-Both P id before current current host config h)
          (λ _ s held.
            ask_then P id before current (SandboxUp P id before current)
              (P.prepare_companion asking) (λ own_config. start_sandbox P (input own_config)) s held
              (λ own_config s' held'.
                start_sandbox-Starts P id before current s' held' (input own_config) own free))

    finish_with : SessionWorkspace → Rebuilding
    finish_with w = holding w (update P w) >> return w

    expose_with : SessionWorkspace → SandboxRef → Rebuilding
    expose_with current sandbox =
        holding (with_sandbox sandbox current)
          (update P (with_sandbox sandbox current) >> expose P workspace sandbox config)
        >>= λ tunnel. finish_with (with_tunnel tunnel (with_sandbox sandbox current))

    finish_with-Rebuilds :
        (w w0 : SessionWorkspace) (host : Host P.World)
        → Owns P id before w host
        → (SaveWorks P → is_some (find_persisted id host.registry) ≡ true)
        → Rebuilds (finish_with w host)
    unfolding finish_with
    finish_with-Rebuilds w w0 host o known =
        holding_then (λ _ s. Stands w s) Stands Stands w (update P w host) (λ _. return w)
          (update-Holds P id before w host o known) (λ _ s held. held)

    expose_with-Rebuilds :
        (current : SessionWorkspace) (sandbox : SandboxRef) (host : Host P.World)
        → workspace.session_id ≡ id
        → current.tunnel_ref ≡ none
        → SandboxUp P id before current sandbox host
        → Rebuilds (expose_with current sandbox host)
    unfolding expose_with
    expose_with-Rebuilds current sandbox host own free (o, known) =
        let w1 = with_sandbox sandbox current in
        holding_then (TunnelUp P id before w1) Stands Stands w1
          ((update P w1 >> expose P workspace sandbox config) host)
          (λ tunnel. finish_with (with_tunnel tunnel w1))
          (update_then w1 (TunnelUp P id before w1) (expose P workspace sandbox config) host o known
            (λ s held. expose-Starts P id before w1 workspace sandbox config s own free held))
          (λ tunnel s up. finish_with-Rebuilds (with_tunnel tunnel w1) w1 s up.0 up.1)

    rebuild_from-Rebuilds :
        (current : SessionWorkspace) (host : Host P.World)
        → workspace.session_id ≡ id
        → RefersToNothing current
        → Stands current host
        → Rebuilds (rebuild_from P config workspace current host)
    unfolding rebuild_from expose_with finish_with
    rebuild_from-Rebuilds current host own (no_sandbox, no_tunnel) h =
        holding_then (SandboxUp P id before current) Stands Stands current
          (reboot_sandbox P config workspace current host) (expose_with current)
          (reboot_sandbox-Up current host own no_sandbox h)
          (λ sandbox s up. expose_with-Rebuilds current sandbox s own no_tunnel up)

    -- The `catch` block always throws.
    thrown_after :
        (e : Failure) (p : Host P.World × Result Failure SessionWorkspace)
        → Empties P id before p
        → Ends Stands (
            continue
              (rescue p (λ cleanup_error. throw (recovery_failed e cleanup_error)))
              (λ _. throw e))
    thrown_after e (s, ok w) (held, _) = Holds-IsKept P id before w s held
    thrown_after e (s, err e') kept = kept

    rescue-Ends :
        (p : Host P.World × Result (Caught SessionWorkspace) SessionWorkspace)
        → Rebuilds p
        → Ends Stands (rescue p (discard P config))
    rescue-Ends (s, ok w) held = held
    rescue-Ends (s, err caught) held =
        thrown_after caught.error (remove_preview_resources P caught.workspace config s)
          (remove-Empties P id before caught.workspace config s held)

  rebuild_preview-Ends :
      (workspace : SessionWorkspace) (host : Host P.World)
      → Stands workspace host
      → Ends Stands (rebuild_preview P workspace host)
  unfolding rebuild_preview
  rebuild_preview-Ends workspace host h =
      let config = get workspace.project_key P.preview_configs in
      continue-After (λ w s. Stands w s × RefersToNothing w) Stands (λ _ s. IsKept P id before s)
        (remove_preview_resources P workspace config host)
        (λ current. catch (rebuild_from P config workspace current) (discard P config))
        (remove-Empties P id before workspace config host h)
        (λ current s (held, nothing).
          rescue-Ends config workspace (rebuild_from P config workspace current s)
            (rebuild_from-Rebuilds config workspace current s h.owns.session nothing held))

  recover_at-Ends :
      (workspace : SessionWorkspace) (path : Option String) (host : Host P.World)
      → Stands workspace host
      → Ends (λ _ s. IsKept P id before s) (recover_at P workspace path host)
  recover_at-Ends workspace none host h = Holds-IsKept P id before workspace host h
  recover_at-Ends workspace (some path) host h =
      continue-After (λ _ s. Stands workspace s) (λ _ s. IsKept P id before s)
        (λ _ s. IsKept P id before s) (ask P (P.validate_prepared workspace path) host)
        (λ _. rebuild_preview P workspace >>= λ _. return tt)
        (After-map {Q = λ _ s. Stands workspace s} {R = λ _ s. Stands workspace s}
          {X = λ _ s. Stands workspace s} {Y = λ _ s. IsKept P id before s}
          (ask P (P.validate_prepared workspace path) host) (λ _ s held. held)
          (λ _ s held. Holds-IsKept P id before workspace s held)
          (ask-Holds P id before workspace host h (P.validate_prepared workspace path)))
        (λ _ s held.
          continue-After Stands (λ _ s'. IsKept P id before s') (λ _ s'. IsKept P id before s')
            (rebuild_preview P workspace s) (λ _. return tt) (rebuild_preview-Ends workspace s held)
            (λ w s' held'. Holds-IsKept P id before w s' held'))

  pub recover-Ends :
      (workspace : SessionWorkspace) (host : Host P.World)
      → Stands workspace host
      → Ends (λ _ s. IsKept P id before s) (recover P workspace host)
  unfolding recover
  recover-Ends workspace host h =
      recover_at-Ends workspace (present (get workspace.project_key P.project_paths)) host h
